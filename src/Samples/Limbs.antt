-- ===== src/Samples/Limbs.antt =====
-- Unbounded integers as numbers, with their count of limbs of 32 bits.
use native.Mathlib.Nat.{le-div_iff_mul-le}
use polkafoundry.Base.{
  ℕ, zero, suc, ◌+◌, ◌-◌, ◌*◌, ◌/◌, ◌≤◌, ◌<◌, ◌≡◌, refl, arith, none, some, ok, err, leb, ltb,
  ltb→lt, ◌==◌, if◌then◌else◌, u32_mod, Bool-cases, inl, inr,
}
use polkafoundry.BigUint.{BigUint, IsBigUint}

-- The limbs of a number, with at least as many rounds as the number.
limbs : ℕ → ℕ → ℕ
limbs zero n = 1
limbs (suc f) n = let more = suc (limbs f (n / u32_mod)) in if ltb n u32_mod then 1 else more

limbs-pos : (f n : ℕ) → 1 ≤ limbs f n
unfolding limbs
limbs-pos zero n = omega arith
limbs-pos (suc f) n = ground arith

limbs_mono : (f g b a : ℕ) → b ≤ a → a ≤ g → limbs f b ≤ limbs g a
unfolding limbs
limbs_mono zero g b a h k = limbs-pos g a
limbs_mono (suc f) zero b a h k = ground arith
limbs_mono (suc f) (suc g) b a h k = ground (arith, limbs_mono f g (b / u32_mod) (a / u32_mod))

quotient-le : (a c : ℕ) → u32_mod ≤ c → a ≤ a * c / u32_mod
quotient-le a c h = (le-div_iff_mul-le (omega arith)).1 (grind arith)

limbs-mul : (f g a c : ℕ) → u32_mod ≤ c → 1 ≤ a → a * c ≤ g → suc (limbs f a) ≤ limbs g (a * c)
unfolding limbs
limbs-mul f zero a c h p k = absurd (grind arith)
limbs-mul f (suc g) a c h p k =
    let q = quotient-le a c h in
    let big : u32_mod ≤ a * c = grind arith in ground (arith, limbs_mono f g a (a * c / u32_mod) q)

len : ℕ → ℕ
len n = limbs n n

unfoldable pub number : BigUint ℕ
unfolding len limbs
number = record {
  zero = 0;
  from = λ n. n;
  lstrip = λ n. n;
  len = len;
  checked_get = λ i n. if i == 0 then some (n - n / u32_mod * u32_mod) else none;
  add = λ a b. a + b;
  sub = λ a b. if leb b a then ok (a - b) else err 0;
  mul = λ a b. a * b;
  div_unit = λ a k. a / k;
  div = λ a b r. some (a / b, none);
  ge = λ a b. leb b a;
  is_zero = λ a. leb a 0;
  to_u128 = λ a. some a;
}

len_one : (n : ℕ) → limbs n n ≡ 1 → n < u32_mod
unfolding limbs
len_one zero h = omega arith
len_one (suc n) h = ground (arith, limbs-pos n (suc n / u32_mod))

len_pos : (n : ℕ) → 2 ≤ limbs n n → 1 ≤ n
unfolding limbs
len_pos zero h = omega arith
len_pos (suc n) h = omega arith

pub number_IsBigUint : IsBigUint number
unfolding number
number_IsBigUint = record {
  value = λ n. n;
  value-zero = refl;
  value-from = λ n. refl;
  value-lstrip = λ a. refl;
  lstrip-lstrip = λ a. refl;
  value-add = λ a b. refl;
  value-mul = λ a b. refl;
  sub_lem = λ a b h. (a - b, ground arith, refl);
  value-div_unit = λ a k h. refl;
  len_zero = λ a h. omega (arith, limbs-pos a a);
  len_one = λ a h. ground (arith, len_one a h);
  len_lt = λ a b s two h. lt_of_limbs a b h;
  len-mul = λ a c s two h. limbs-mul a (a * c) a c h (len_pos a two) (omega arith);
  div_lem = λ a b s t two h. (a / b, refl, refl);
  ge_lem = λ a b. refl;
  is_zero_lem = λ a. refl;
}
  where
    lt_of_limbs : (a b : ℕ) → limbs a a < limbs b b → a < b
    lt_of_limbs a b h = elim (Bool-cases (ltb a b)) [
      | inl t ↦ ltb→lt a b t
      | inr t ↦ absurd (omega (arith, limbs_mono b a b a (ground arith) (omega arith)))
    ]

pub number_value : (n : ℕ) → number_IsBigUint.value n ≡ n
unfolding number_IsBigUint
number_value n = refl
