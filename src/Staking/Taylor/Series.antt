-- ===== src/Staking/Taylor/Series.antt =====
-- `compute_taylor_serie_part` of pallets/polkafoundry-staking/src/taylor_series.rs and the sums of
-- the even and of the odd terms.
use polkafoundry.Base.{
  ℕ, zero, suc, ◌+◌, ◌-◌, ◌*◌, ◌/◌, ◌%◌, ◌≤◌, ◌<◌, ◌≡◌, arith, Bool, true, false, ◌==◌, leb,
  if◌then◌else◌, Bool-cases, inl, inr,
}
use polkafoundry.BigUint.{BigUint, IsBigUint}
use polkafoundry.Staking.Taylor.{
  InPoSParam, either, compute_taylor_term, fold_term, series_loop, compute_taylor_serie_part,
}
use polkafoundry.Staking.Taylor.Division.{div_by_stripped-value}

-- The recurrence of the terms, on numbers: `last * (x - x_ideal) * ln2_div_d / k / accuracy / accuracy`.
abbrev pub next_term : ℕ → ℕ → ℕ → ℕ → ℕ → ℕ
next_term k last diff ln2_div_d accuracy = last * diff * ln2_div_d / k / accuracy / accuracy

-- The sums of the even terms and of the odd terms up to the first zero, within `n` rounds.
unfoldable pub sums : ℕ → ℕ → ℕ → ℕ → ℕ → ℕ → ℕ × ℕ → ℕ × ℕ
sums zero k last diff ln2_div_d accuracy acc = acc
sums (suc n) k last diff ln2_div_d accuracy (evens, odds) =
    let term = next_term k last diff ln2_div_d accuracy in
    let acc = if k % 2 == 0 then (evens + term, odds) else (evens, odds + term) in
    let rest = sums n (k + 1) term diff ln2_div_d accuracy acc in
    if leb term 0 then (evens, odds) else rest

module _ {B : Type 0} (u : BigUint B) (law : IsBigUint u) where
  open law use {value}

  -- A sign and a magnitude stand for the difference of two sums.
  abbrev Stands : Bool × B → ℕ × ℕ → Type 0
  Stands (true, v) (evens, odds) = evens ≡ odds + value v
  Stands (false, v) (evens, odds) = odds ≡ evens + value v

  minus_value : (a b : B) → value b ≤ value a → value (either (u.sub a b)) ≡ value a - value b
  minus_value a b h = let (r, e, v) = law.sub_lem a b h in rw e v

  -- The sums after a term, by its parity.
  abbrev with_term : ℕ → ℕ → ℕ × ℕ → ℕ × ℕ
  with_term k term (evens, odds) = if k % 2 == 0 then (evens + term, odds) else (evens, odds + term)

  -- Each round adds the term to the sum of its parity.
  fold_term-Stands :
      (k : ℕ) (t : B) (acc : Bool × B) (sum : ℕ × ℕ)
      → Stands acc sum
      → Stands (fold_term u k t acc) (with_term k (value t) sum)
  unfolding fold_term
  fold_term-Stands k t (true, v) (evens, odds) h =
      ground (arith, law.value-add v t, law.ge_lem v t, minus_value v t, minus_value t v)
  fold_term-Stands k t (false, v) (evens, odds) h =
      ground (arith, law.value-add v t, law.ge_lem v t, minus_value v t, minus_value t v)

  -- The parameters as `compute_inflation` makes them, with a stake that is above the ideal one.
  pub record IsParam (p : InPoSParam B) : Type 0 where
    pub stripped : u.lstrip p.accuracy ≡ p.accuracy
    pub positive : 0 < value p.accuracy
    pub above : value p.x_ideal ≤ value p.x

  -- The next term by the recurrence, on the numbers of a parameter.
  abbrev pub term_of : InPoSParam B → ℕ → ℕ → ℕ
  term_of p k last =
      next_term k last (value p.x - value p.x_ideal) (value p.ln2_div_d) (value p.accuracy)

  -- A term is computed by the recurrence, with every division rounded down.
  pub compute_taylor_term-value :
      (k : ℕ) (last : B) (p : InPoSParam B)
      → IsParam p
      → 0 < k
      → value (compute_taylor_term u k last p) ≡ term_of p k (value last)
  unfolding compute_taylor_term
  compute_taylor_term-value k last p v h =
      let (r, e, diff) = law.sub_lem p.x p.x_ideal v.above in
      rw (
        compute_taylor_term,
        e,
        law.value-lstrip,
        div_by_stripped-value u law _ p.accuracy v.stripped v.positive,
        div_by_stripped-value u law _ p.accuracy v.stripped v.positive,
        law.value-div_unit _ k h,
        law.value-mul,
        law.value-mul,
        diff,
      )

  abbrev sums_of : InPoSParam B → ℕ → ℕ → ℕ → ℕ × ℕ → ℕ × ℕ
  sums_of p n k last acc =
      sums n k last (value p.x - value p.x_ideal) (value p.ln2_div_d) (value p.accuracy) acc

  series_loop-Stands :
      (n k : ℕ) (last : B) (p : InPoSParam B) (acc : Bool × B) (sum : ℕ × ℕ)
      → IsParam p
      → 0 < k
      → Stands acc sum
      → Stands (series_loop u n k last p acc) (sums_of p n k (value last) sum)
  unfolding series_loop sums
  series_loop-Stands zero k last p acc sum w h st = st
  series_loop-Stands (suc n) k last p acc sum w h st =
      let t = compute_taylor_term u k last p in
      let tv = compute_taylor_term-value k last p w h in
      let rest =
        series_loop-Stands n (k + 1) t p (fold_term u k t acc) (with_term k (value t) sum) w
          (omega arith) (fold_term-Stands k t acc sum st) in
      rw (← tv, law.is_zero_lem t)
        (elim (Bool-cases (leb (value t) 0)) [ inl z ↦ rw z st | inr z ↦ rw z rest ])

  difference :
      (acc : Bool × B) (sum : ℕ × ℕ)
      → Stands acc sum
      → value (if acc.0 then u.lstrip acc.1 else u.zero) ≡ sum.0 - sum.1
  difference (true, v) (evens, odds) h = omega (arith, law.value-lstrip v)
  difference (false, v) (evens, odds) h = omega (arith, law.value-zero)

  -- For a stake that is not below the ideal one, the result of `compute_taylor_serie_part` is the
  -- sum of the even terms less the sum of the odd terms, up to the first zero and for at most 299
  -- rounds, or zero if that is negative. (The accuracy is positive and has no leading zeros.)
  pub compute_taylor_serie_part-value :
      (p : InPoSParam B)
      → IsParam p
      → value (compute_taylor_serie_part u p) ≡ (
          let (evens, odds) = sums_of p 299 1 (value p.accuracy) (value p.accuracy, 0) in
          evens - odds)
  unfolding compute_taylor_serie_part
  compute_taylor_serie_part-value p w =
      let acc = series_loop u 299 1 p.accuracy p (true, p.accuracy) in
      let sum = sums_of p 299 1 (value p.accuracy) (value p.accuracy, 0) in
      difference acc sum (
        series_loop-Stands 299 1 p.accuracy p (true, p.accuracy) (value p.accuracy, 0) w
          (omega arith) (omega arith))
