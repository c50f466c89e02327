-- ===== src/Samples.antt =====
-- Concrete values for the parameters of the models, which show that what is assumed of them can hold:
-- balances as two functions, fractions in billionths, and unbounded integers as numbers.
pub mod Limbs
use native.Mathlib.Nat.{div-le_of_le-mul, mul-div_cancel_left}
use polkafoundry.Base.{
  ℕ, ◌+◌, ◌-◌, ◌*◌, ◌/◌, ◌≤◌, ◌<◌, ◌≡◌, refl, arith, min, Option, none, some, leb, ltb, ◌==◌,
  if◌then◌else◌,
}
use polkafoundry.Currency.{Currency, LeftOver, TransferMoves, UnreserveFrees}
use polkafoundry.PerThing.{PerThing, IsPerThing}

pub record Balances : Type 0 where
  pub free : ℕ → ℕ
  pub reserved : ℕ → ℕ

abbrev pub at_key : ℕ → ℕ → (ℕ → ℕ) → ℕ → ℕ
at_key k v f j = if k == j then v else f j

abbrev pub reserve : ℕ → ℕ → Balances → Option Balances
reserve a x l =
    if leb x (l.free a)
    then some (record {
      free = at_key a (l.free a - x) l.free;
      reserved = at_key a (l.reserved a + x) l.reserved;
    })
    else none

abbrev pub unreserve : ℕ → ℕ → Balances → ℕ × Balances
unreserve a x l =
    let y = min x (l.reserved a) in
    (
      x - y,
      record {
        free = at_key a (l.free a + y) l.free;
        reserved = at_key a (l.reserved a - y) l.reserved;
      },
    )

-- The existential deposit.
abbrev pub minimum : ℕ
minimum = 10

-- The rest of an account that falls below the minimum is burnt.
abbrev pub transfer : ℕ → ℕ → ℕ → Balances → Option Balances
transfer a b x l =
    let rest = l.free a - x in
    let kept = if ltb (rest + l.reserved a) minimum then 0 else rest in
    let paid = at_key a kept l.free in
    if leb x (l.free a) then some (record l { free = at_key b (paid b + x) paid }) else none

abbrev pub sample_currency : Currency Balances
sample_currency = record {
  free_balance = λ a l. l.free a;
  reserved_balance = λ a l. l.reserved a;
  total_issuance = λ l. 100000;
  minimum_balance = minimum;
  reserve = reserve;
  unreserve = unreserve;
  deposit_into_existing = λ a x l. some (x, record l { free = at_key a (l.free a + x) l.free });
  transfer = transfer;
}

sample_transfer :
    (a b x : ℕ) (l l' : Balances)
    → transfer a b x l ≡ some l'
    → (a ≡ b → ⊥)
    → (x ≤ l.free a) × LeftOver minimum (l.free a - x) (l'.free a) × (l'.free b ≡ l.free b + x)
sample_transfer a b x l l' e ne = ground arith

pub sample_TransferMoves : TransferMoves sample_currency
sample_TransferMoves = record { moves = sample_transfer }

sample_unreserve :
    (a x : ℕ) (l : Balances)
    → x ≤ l.reserved a
    → let l' = (unreserve a x l).1 in
      (l'.reserved a + x ≡ l.reserved a) × (l'.free a ≡ l.free a + x)
sample_unreserve a x l h = (ground arith, ground arith)

pub sample_UnreserveFrees : UnreserveFrees sample_currency
sample_UnreserveFrees = record { frees = sample_unreserve }

abbrev pub billion : ℕ
billion = 1000000000

abbrev pub ratio : ℕ → ℕ → ℕ
ratio a b = if b == 0 then billion else min (a * billion / b) billion

abbrev pub sample_perbill : PerThing
sample_perbill = record {
  accuracy = billion;
  from_rational = ratio;
  from_percent = λ n. min (n * 10000000) billion;
  times = λ a b. a * b / billion;
  quotient = ratio;
  mul = λ a n. a * n / billion;
  saturating_add = λ a b. min (a + b) billion;
  saturating_sub = λ a b. a - b;
}

times_le : (a b : ℕ) → b ≤ billion → a * b / billion ≤ a
times_le a b h = div-le_of_le-mul billion {m = a * b} {n = a} (grind arith)

pub sample_IsPerThing : IsPerThing sample_perbill
sample_IsPerThing = record {
  accuracy_pos = omega arith;
  from_rational-le = λ a b. ground arith;
  times-le_left = λ a b h k. times_le a b k;
  times-one = λ a h. omega arith;
  times-zero = λ a h. omega arith;
  quotient-le = λ a b. ground arith;
  quotient-self = λ a h k. ratio_self a h;
  mul-le = λ a n h. mul_le a n h;
  saturating_add_lem = λ a b. refl;
  saturating_sub_lem = λ a b. refl;
}
  where
    mul_le : (a n : ℕ) → a ≤ billion → a * n / billion ≤ n
    mul_le a n h = div-le_of_le-mul billion {m = a * n} {n = n} (grind arith)

    ratio_self : (a : ℕ) → 0 < a → ratio a a ≡ billion
    ratio_self a h = ground (arith, mul-div_cancel_left billion h)
