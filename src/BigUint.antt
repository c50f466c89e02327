-- ===== src/BigUint.antt =====
-- The unsigned integers of unbounded size of sp_arithmetic (`BigUint`), which is not part of this
-- repository. A value of `BigUint B` gives the operations that the inflation formula calls on numbers
-- of type `B`; it is a parameter of that model.
use polkafoundry.Base.{
  ℕ, ◌+◌, ◌-◌, ◌*◌, ◌/◌, ◌≤◌, ◌<◌, ◌≡◌, Bool, false, Option, none, some, Result, ok, u32_mod, leb,
}

pub record BigUint (B : Type 0) : Type 0 where
  pub zero : B
  pub from : ℕ → B
  pub lstrip : B → B
  -- The number of limbs of 32 bits.
  pub len : B → ℕ
  pub checked_get : ℕ → B → Option ℕ
  pub add : B → B → B
  pub sub : B → B → Result B B
  pub mul : B → B → B
  pub div_unit : B → ℕ → B
  pub div : B → B → Bool → Option (B × Option B)
  pub ge : B → B → Bool
  pub is_zero : B → Bool
  -- `u128::try_from`
  pub to_u128 : B → Option ℕ

-- What the documentation of sp_arithmetic says of them, by the number that a value stands for.
pub record IsBigUint {B : Type 0} (u : BigUint B) : Type 0 where
  pub value : B → ℕ
  pub value-zero : value u.zero ≡ 0
  pub value-from : (n : ℕ) → value (u.from n) ≡ n
  pub value-lstrip : (a : B) → value (u.lstrip a) ≡ value a
  pub lstrip-lstrip : (a : B) → u.lstrip (u.lstrip a) ≡ u.lstrip a
  pub value-add : (a b : B) → value (u.add a b) ≡ value a + value b
  pub value-mul : (a b : B) → value (u.mul a b) ≡ value a * value b
  pub sub_lem :
      (a b : B) → value b ≤ value a → (r : B) × (u.sub a b ≡ ok r) × (value r ≡ value a - value b)
  pub value-div_unit : (a : B) (k : ℕ) → 0 < k → value (u.div_unit a k) ≡ value a / k
  -- A number with no limb is zero, and one with a single limb is that limb.
  pub len_zero : (a : B) → u.len a ≡ 0 → value a ≡ 0
  pub len_one : (a : B) → u.len a ≡ 1 → u.checked_get 0 a ≡ some (value a)
  -- A number without leading zeros is larger than one with fewer limbs, and gains a limb from a factor
  -- that does not fit one.
  pub len_lt : (a b : B) → u.lstrip b ≡ b → 2 ≤ u.len b → u.len a < u.len b → value a < value b
  pub len-mul :
      (a c : B)
      → u.lstrip a ≡ a
      → 2 ≤ u.len a
      → u32_mod ≤ value c
      → u.len a < u.len (u.lstrip (u.mul a c))
  pub div_lem :
      (a b : B)
      → u.lstrip a ≡ a
      → u.lstrip b ≡ b
      → 2 ≤ u.len b
      → u.len b < u.len a
      → (q : B) × (u.div a b false ≡ some (q, none)) × (value q ≡ value a / value b)
  pub ge_lem : (a b : B) → u.ge a b ≡ leb (value b) (value a)
  pub is_zero_lem : (a : B) → u.is_zero a ≡ leb (value a) 0
