-- ===== src/Staking/Taylor/Division.antt =====
-- `div_by_stripped` of pallets/polkafoundry-staking/src/taylor_series.rs and the division of
-- numbers.
use polkafoundry.Base.{
  ℕ, ◌*◌, ◌/◌, ◌≤◌, ◌<◌, ◌≡◌, refl, arith, false, ◌==◌, ltb, Bool-cases, eq_of_==, ltb→lt, inl, inr,
  ◌∙◌, ap, sym,
}
use native.Mathlib.Nat.{div-div-eq-div-mul, mul-div-mul_right, div-eq_of_lt}
use polkafoundry.BigUint.{BigUint, IsBigUint}
use polkafoundry.Staking.Taylor.{div_by_stripped, first_or}

-- Scaling both numbers of a division up by 10 ^ 10, and the quotient down by it in two steps.
scaled_div : (a b : ℕ) → a * 10000000000 / b / 100000 / 100000 ≡ a / b
scaled_div a b =
    rw (div-div-eq-div-mul (a * 10000000000 / b) 100000 100000)
      (div-div-eq-div-mul (a * 10000000000) b 10000000000 ∙ mul-div-mul_right a b (omega arith))

module _ {B : Type 0} (u : BigUint B) (law : IsBigUint u) where
  open law use {value}

  div_value :
      (a b z : B)
      → u.lstrip a ≡ a
      → u.lstrip b ≡ b
      → 2 ≤ u.len b
      → u.len b < u.len a
      → value (first_or z (u.div a b false)) ≡ value a / value b
  div_value a b z ha hb two lt = let (q, e, v) = law.div_lem a b ha hb two lt in rw e v

  longer_value :
      (a b z : B)
      → u.lstrip a ≡ a
      → u.lstrip b ≡ b
      → 2 ≤ u.len b
      → u.len b ≡ u.len a
      → value (
          u.div_unit
            (u.div_unit
              (first_or z (u.div (u.lstrip (u.mul a (u.from 10000000000))) b false))
              100000)
            100000)
        ≡ value a / value b
  longer_value a b z ha hb two same =
      let c = u.from 10000000000 in
      let new_a = u.lstrip (u.mul a c) in
      let grows = law.len-mul a c ha (omega (arith, same)) (rw (law.value-from) (omega arith)) in
      let v =
        div_value new_a b z (law.lstrip-lstrip (u.mul a c)) hb two (omega (arith, same, grows)) in
      rw
        (
          law.value-div_unit _ 100000 (omega arith),
          law.value-div_unit _ 100000 (omega arith),
          v,
          law.value-lstrip,
          law.value-mul,
          law.value-from,
        )
        (scaled_div (value a) (value b))

  -- For a divisor without leading zeros that is not zero, `div_by_stripped` is the quotient rounded down,
  -- on each of its branches: a divisor of one limb, one that is longer than the dividend, one of the same
  -- length (where both are scaled), and a shorter one.
  pub div_by_stripped-value :
      (a b : B) → u.lstrip b ≡ b → 0 < value b → value (div_by_stripped u a b) ≡ value a / value b
  unfolding div_by_stripped
  div_by_stripped-value a b hb pos =
      let a' = u.lstrip a in
      let ha = law.lstrip-lstrip a in
      let same = law.value-lstrip a in
      elim (Bool-cases (u.len b == 0)) [
        | inl z ↦ absurd (omega (arith, law.len_zero b (eq_of_== (u.len b) 0 z)))
        | inr nz ↦ elim (Bool-cases (u.len b == 1)) [
          | inl one ↦
              rw (nz, one, law.len_one b (eq_of_== (u.len b) 1 one))
                (rw (law.value-div_unit a' (value b) pos, same) refl)
          | inr more ↦
              let two : 2 ≤ u.len b = ground arith in
              elim (Bool-cases (ltb (u.len a') (u.len b))) [
                | inl short ↦
                    rw (nz, more, short, law.value-zero)
                      (sym (
                        div-eq_of_lt (
                          rw (← same)
                            (law.len_lt a' b hb two (ltb→lt (u.len a') (u.len b) short)))))
                | inr enough ↦ elim (Bool-cases (u.len b == u.len a')) [
                  | inl equal ↦
                      rw (nz, more, enough, equal)
                        (longer_value a' b u.zero ha hb two (eq_of_== (u.len b) (u.len a') equal)
                          ∙ ap (λ n. n / value b) same)
                  | inr differ ↦
                      rw (nz, more, enough, differ)
                        (div_value a' b u.zero ha hb two (ground arith)
                          ∙ ap (λ n. n / value b) same)
                ]
              ]
        ]
      ]
