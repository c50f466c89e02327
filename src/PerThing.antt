-- ===== src/PerThing.antt =====
-- Fractions of sp_arithmetic (`PerThing`, such as `Perbill`), which is not part of this repository. A
-- fraction is the number of its parts of the accuracy. A value of `PerThing` gives the operations that
-- the pallets call; it is a parameter of the models of the inflation and of the payout.
use polkafoundry.Base.{ℕ, ◌+◌, ◌-◌, ◌≤◌, ◌<◌, ◌≡◌, min}

pub record PerThing : Type 0 where
  pub accuracy : ℕ
  pub from_rational : ℕ → ℕ → ℕ
  pub from_percent : ℕ → ℕ
  -- `p * q` and `p / q` of fractions
  pub times : ℕ → ℕ → ℕ
  pub quotient : ℕ → ℕ → ℕ
  -- `p.mul(n)`, a fraction of a number
  pub mul : ℕ → ℕ → ℕ
  pub saturating_add : ℕ → ℕ → ℕ
  pub saturating_sub : ℕ → ℕ → ℕ

-- What the documentation of sp_arithmetic says of these operations.
pub record IsPerThing (p : PerThing) : Type 0 where
  pub accuracy_pos : 0 < p.accuracy
  pub from_rational-le : (a b : ℕ) → p.from_rational a b ≤ p.accuracy
  pub times-le_left : (a b : ℕ) → a ≤ p.accuracy → b ≤ p.accuracy → p.times a b ≤ a
  pub times-one : (a : ℕ) → a ≤ p.accuracy → p.times a p.accuracy ≡ a
  pub times-zero : (a : ℕ) → a ≤ p.accuracy → p.times a 0 ≡ 0
  pub quotient-le : (a b : ℕ) → p.quotient a b ≤ p.accuracy
  pub quotient-self : (a : ℕ) → 0 < a → a ≤ p.accuracy → p.quotient a a ≡ p.accuracy
  pub mul-le : (a n : ℕ) → a ≤ p.accuracy → p.mul a n ≤ n
  pub saturating_add_lem : (a b : ℕ) → p.saturating_add a b ≡ min (a + b) p.accuracy
  pub saturating_sub_lem : (a b : ℕ) → p.saturating_sub a b ≡ a - b
