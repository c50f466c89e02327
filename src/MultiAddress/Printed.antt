-- ===== src/MultiAddress/Printed.antt =====
-- What the printed form of an address of bytes tells (`Display` of runtime/halongbay/src/multiaddress.rs).
use polkafoundry.Base.{ℕ, ◌≡◌, refl, arith, List, [], ◌∷◌, ◌++◌}
use polkafoundry.MultiAddress.{MultiAddress, raw, address32, address20, display}

-- An address that is given by bytes.
pub data Bytes {AccountId AccountIndex : Type 0}
    : MultiAddress AccountId AccountIndex → Type 0 where
  is_raw : (b : List ℕ) → Bytes (raw b)
  is_address32 : (b : List ℕ) → Bytes (address32 b)
  is_address20 : (b : List ℕ) → Bytes (address20 b)

-- Texts with the same last character.
append_same : (s t : List ℕ) (c : ℕ) → s ++ (c ∷ []) ≡ t ++ (c ∷ []) → s ≡ t
append_same [] [] c h = refl
append_same [] (d ∷ []) c h = absurd (ground arith)
append_same [] (d ∷ e ∷ t) c h = absurd (ground arith)
append_same (d ∷ []) [] c h = absurd (ground arith)
append_same (d ∷ e ∷ s) [] c h = absurd (ground arith)
append_same (d ∷ s) (e ∷ t) c h = ground (arith, append_same s t c)

module _ {AccountId AccountIndex : Type 0} (hex : List ℕ → List ℕ)
    (debug : MultiAddress AccountId AccountIndex → List ℕ)
    (hex-injective : (a b : List ℕ) → hex a ≡ hex b → a ≡ b) where
  -- Two addresses that are given by bytes print alike only if they are equal: the text tells the form of the
  -- address and its bytes, where no two byte strings have the same hexadecimal digits.
  pub display-injective :
      (x y : MultiAddress AccountId AccountIndex)
      → Bytes x
      → Bytes y
      → display hex debug x ≡ display hex debug y
      → x ≡ y
  unfolding display
  display-injective x y (is_raw a) (is_raw b) h =
      ground (arith, append_same (hex a) (hex b) 41, hex-injective a b)
  display-injective x y (is_raw a) (is_address32 b) h = absurd (ground arith)
  display-injective x y (is_raw a) (is_address20 b) h = absurd (ground arith)
  display-injective x y (is_address32 a) (is_raw b) h = absurd (ground arith)
  display-injective x y (is_address32 a) (is_address32 b) h =
      ground (arith, append_same (hex a) (hex b) 41, hex-injective a b)
  display-injective x y (is_address32 a) (is_address20 b) h = absurd (ground arith)
  display-injective x y (is_address20 a) (is_raw b) h = absurd (ground arith)
  display-injective x y (is_address20 a) (is_address32 b) h = absurd (ground arith)
  display-injective x y (is_address20 a) (is_address20 b) h =
      ground (arith, append_same (hex a) (hex b) 41, hex-injective a b)
