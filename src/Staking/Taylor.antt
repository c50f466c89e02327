-- ===== src/Staking/Taylor.antt =====
-- pallets/polkafoundry-staking/src/taylor_series.rs: the inflation rate above the ideal stake, as a
-- Taylor series over unbounded integers.
pub mod Division
pub mod Series
use polkafoundry.Base.{
  ℕ, zero, suc, ◌+◌, ◌%◌, Bool, true, false, not, Option, none, some, Result, ok, err, leb, ltb,
  ◌==◌, if◌then◌else◌,
}
use polkafoundry.PerThing.{PerThing}
use polkafoundry.BigUint.{BigUint}

-- `struct INPoSParam`
pub record InPoSParam (B : Type 0) : Type 0 where
  pub ln2_div_d : B
  pub x_ideal : B
  pub x : B
  pub accuracy : B

-- `o.map(|res| res.0).unwrap_or_else(zero)`
abbrev pub first_or : {B : Type 0} → B → Option (B × Option B) → B
first_or z none = z
first_or z (some (q, r)) = q

-- `r.unwrap_or_else(|e| e)`
abbrev pub either : {B : Type 0} → Result B B → B
either (ok r) = r
either (err e) = e

abbrev pub ok_or_zero : {B : Type 0} → B → Result B B → B
ok_or_zero z (ok r) = r
ok_or_zero z (err e) = z

abbrev pub get_or_one : Option ℕ → ℕ
get_or_one none = 1
get_or_one (some n) = n

-- `const LN2`, in parts of `Perquintill::ACCURACY`
abbrev pub LN2 : ℕ
LN2 = 693147180559945309

abbrev pub perquintill_accuracy : ℕ
perquintill_accuracy = 1000000000000000000

module _ {B : Type 0} (u : BigUint B) where
  unfoldable pub div_by_stripped : B → B → B
  div_by_stripped a b =
      let a' = u.lstrip a in
      let new_a = u.lstrip (u.mul a' (u.from 10000000000)) in
      let longer = u.div_unit (u.div_unit (first_or u.zero (u.div new_a b false)) 100000) 100000 in
      if u.len b == 0
      then u.zero
      else (if u.len b == 1
          then u.div_unit a' (get_or_one (u.checked_get 0 b))
          else (if ltb (u.len a') (u.len b)
              then u.zero
              else (if u.len b == u.len a' then longer else first_or u.zero (u.div a' b false))))

  unfoldable pub compute_taylor_term : ℕ → B → InPoSParam B → B
  compute_taylor_term k previous p =
      let x_minus_x_ideal = ok_or_zero u.zero (u.sub p.x p.x_ideal) in
      let res = u.div_unit (u.mul (u.mul previous x_minus_x_ideal) p.ln2_div_d) k in
      u.lstrip (div_by_stripped (div_by_stripped res p.accuracy) p.accuracy)

  -- The change of `taylor_sum_positive` and `taylor_sum` by the `k`-th term.
  unfoldable pub fold_term : ℕ → B → Bool × B → Bool × B
  fold_term k term (positive, sum) =
      let even = k % 2 == 0 in
      let same = if positive then even else not even in
      if same
      then (positive, u.add sum term)
      else (if u.ge sum term
          then (positive, either (u.sub sum term))
          else (not positive, either (u.sub term sum)))

  -- `for k in ..`, with the rounds that are left.
  unfoldable pub series_loop : ℕ → ℕ → B → InPoSParam B → Bool × B → Bool × B
  unfolding compute_taylor_term fold_term
  series_loop zero k last p acc = acc
  series_loop (suc n) k last p acc =
      let term = compute_taylor_term k last p in
      let rest = series_loop n (k + 1) term p (fold_term k term acc) in
      if u.is_zero term then acc else rest

  unfoldable pub compute_taylor_serie_part : InPoSParam B → B
  unfolding series_loop
  compute_taylor_serie_part p =
      let (positive, sum) = series_loop 299 1 p.accuracy p (true, p.accuracy) in
      if positive then u.lstrip sum else u.zero

  -- `u128::try_from(res)` with the guard of the `match`.
  unfoldable pub checked_parts : PerThing → Option ℕ → ℕ
  checked_parts per none = 0
  checked_parts per (some res) = if leb res per.accuracy then res else 0

  unfoldable pub compute_inflation : PerThing → ℕ → ℕ → ℕ → ℕ
  compute_inflation per stake ideal_stake falloff =
      let accuracy = u.lstrip (u.from per.accuracy) in
      let d = u.lstrip (u.from falloff) in
      let ln2 = u.from (per.from_rational LN2 perquintill_accuracy) in
      let param : InPoSParam B = record {
        ln2_div_d = div_by_stripped (u.mul ln2 accuracy) d;
        x_ideal = u.from ideal_stake;
        x = u.from stake;
        accuracy = accuracy;
      } in
      if leb stake ideal_stake
      then per.quotient stake ideal_stake
      else (if ltb falloff (per.from_percent 1)
          then 0
          else checked_parts per (u.to_u128 (compute_taylor_serie_part param)))
