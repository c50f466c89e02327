-- ===== src/Staking/Bonds/Stakes.antt =====
-- A list of bonds as a map from owners to amounts, and what the loops do to it.
use polkafoundry.Base.{
  ℕ, ◌+◌, ◌<◌, ◌≡◌, refl, arith, Option, none, some, List, [], ◌∷◌, u128_mod, add_u128, sub_u128,
  add_u128_exact, sub_u128_exact, sum_of, push, ltb, ◌==◌, Bool-cases, inl, inr, if◌then◌else◌,
  eq_of_==,
}
use polkafoundry.Staking.Types.{Bond}
use polkafoundry.Staking.Bonds.{grow_bond, shrink_bond, drop_bonds}

-- The amount of the first bond of an owner.
abbrev pub stake_of : ℕ → List Bond → Option ℕ
stake_of o [] = none
stake_of o (b ∷ bs) = if b.owner == o then some b.amount else stake_of o bs

abbrev pub amounts : List Bond → ℕ
amounts = sum_of (λ (b : Bond). b.amount)

-- No owner has two bonds.
abbrev pub IsUnique : List Bond → Type 0
IsUnique [] = Unit
IsUnique (b ∷ bs) = (stake_of b.owner bs ≡ none) × IsUnique bs

abbrev pub grown : ℕ → Option ℕ → Option ℕ
grown x none = none
grown x (some a) = some (add_u128 a x)

abbrev pub shrunk : ℕ → Option ℕ → Option ℕ
shrunk x none = none
shrunk x (some a) = if ltb x a then some (sub_u128 a x) else some a

pub stake_of-push :
    (o : ℕ) (b : Bond) (bs : List Bond)
    → stake_of o (push bs b) ≡ (elim (stake_of o bs) [
      | none ↦ (if b.owner == o then some b.amount else none)
      | some a ↦ some a
    ])
stake_of-push o b [] = refl
stake_of-push o b (c ∷ bs) = ground (arith, stake_of-push o b bs)

pub push-IsUnique :
    (b : Bond) (bs : List Bond) → IsUnique bs → stake_of b.owner bs ≡ none → IsUnique (push bs b)
push-IsUnique b [] u h = (refl, tt)
push-IsUnique b (c ∷ bs) u h = ground (arith, push-IsUnique b bs u.1, stake_of-push c.owner b bs)

-- `grow_bond` is the update of one entry of the map, and it returns the new entry.
pub grow_bond-stake :
    (x : Bond) (bs : List Bond) (o : ℕ)
    → (stake_of o (grow_bond x bs).0
        ≡ (if x.owner == o then grown x.amount (stake_of o bs) else stake_of o bs))
      × ((grow_bond x bs).1 ≡ grown x.amount (stake_of x.owner bs))
unfolding grow_bond
grow_bond-stake x [] o = ground arith
grow_bond-stake x (b ∷ bs) o = ground (arith, grow_bond-stake x bs o)

pub grow_bond-IsUnique : (x : Bond) (bs : List Bond) → IsUnique bs → IsUnique (grow_bond x bs).0
unfolding grow_bond
grow_bond-IsUnique x [] u = tt
grow_bond-IsUnique x (b ∷ bs) u =
    ground (arith, grow_bond-IsUnique x bs u.1, (grow_bond-stake x bs b.owner).0)

-- The sum of the amounts grows by the extra amount, if there is a bond to grow.
pub grow_bond-amounts :
    (x : Bond) (bs : List Bond)
    → amounts bs + x.amount < u128_mod
    → amounts (grow_bond x bs).0
      ≡ amounts bs + (elim (stake_of x.owner bs) [ none ↦ 0 | some _ ↦ x.amount ])
unfolding grow_bond
grow_bond-amounts x [] h = ground arith
grow_bond-amounts x (b ∷ bs) h =
    ground (arith, grow_bond-amounts x bs, add_u128_exact b.amount x.amount)

-- `shrink_bond` is the update of one entry of the map. It reports a missing bond, a bond that is not
-- larger than the amount (and then changes nothing), or the new entry.
pub shrink_bond-stake :
    (x : Bond) (bs : List Bond) (o : ℕ)
    → (stake_of o (shrink_bond x bs).0
        ≡ (if x.owner == o then shrunk x.amount (stake_of o bs) else stake_of o bs))
      × ((shrink_bond x bs).1 ≡ (elim (stake_of x.owner bs) [
        | none ↦ none
        | some a ↦ some (if ltb x.amount a then some (sub_u128 a x.amount) else none)
      ]))
unfolding shrink_bond
shrink_bond-stake x [] o = ground arith
shrink_bond-stake x (b ∷ bs) o = ground (arith, shrink_bond-stake x bs o)

pub shrink_bond-IsUnique : (x : Bond) (bs : List Bond) → IsUnique bs → IsUnique (shrink_bond x bs).0
unfolding shrink_bond
shrink_bond-IsUnique x [] u = tt
shrink_bond-IsUnique x (b ∷ bs) u =
    ground (arith, shrink_bond-IsUnique x bs u.1, (shrink_bond-stake x bs b.owner).0)

-- The sum of the amounts falls by the amount exactly if the bond was large enough.
pub shrink_bond-amounts :
    (x : Bond) (bs : List Bond)
    → amounts bs < u128_mod
    → amounts (shrink_bond x bs).0 + (elim (stake_of x.owner bs) [
      | none ↦ 0
      | some a ↦ (if ltb x.amount a then x.amount else 0)
    ])
      ≡ amounts bs
unfolding shrink_bond
shrink_bond-amounts x [] h = ground arith
shrink_bond-amounts x (b ∷ bs) h =
    ground (arith, shrink_bond-amounts x bs, sub_u128_exact b.amount x.amount)

drop_bonds-report :
    (o : ℕ) (less : Option ℕ) (bs : List Bond)
    → IsUnique bs
    → (drop_bonds o less bs).1 ≡ (elim (stake_of o bs) [ none ↦ less | some a ↦ some a ])
unfolding drop_bonds
drop_bonds-report o less [] u = ground arith
drop_bonds-report o less (b ∷ bs) u = elim (Bool-cases (b.owner == o)) [
  | inl t ↦ ground (arith, drop_bonds-report o (some b.amount) bs u.1, eq_of_== b.owner o t)
  | inr t ↦ rw t (drop_bonds-report o less bs u.1)
]

-- Of an owner with at most one bond, `drop_bonds` reports the amount of that bond.
pub drop_bonds_lem :
    (o : ℕ) (bs : List Bond) → IsUnique bs → (drop_bonds o none bs).1 ≡ stake_of o bs
drop_bonds_lem o bs u = ground (arith, drop_bonds-report o none bs u)

-- It removes the owner from the map, and leaves the other entries.
pub drop_bonds-stake :
    (o : ℕ) (less : Option ℕ) (bs : List Bond) (p : ℕ)
    → stake_of p (drop_bonds o less bs).0 ≡ (if o == p then none else stake_of p bs)
unfolding drop_bonds
drop_bonds-stake o less [] p = ground arith
drop_bonds-stake o less (b ∷ bs) p =
    ground (arith, drop_bonds-stake o (some b.amount) bs p, drop_bonds-stake o less bs p)

pub drop_bonds-IsUnique :
    (o : ℕ) (less : Option ℕ) (bs : List Bond) → IsUnique bs → IsUnique (drop_bonds o less bs).0
unfolding drop_bonds
drop_bonds-IsUnique o less [] u = tt
drop_bonds-IsUnique o less (b ∷ bs) u = ground (
  arith,
  drop_bonds-IsUnique o (some b.amount) bs u.1,
  drop_bonds-IsUnique o less bs u.1,
  drop_bonds-stake o less bs b.owner,
)

drop_bonds_absent :
    (o : ℕ) (less : Option ℕ) (bs : List Bond)
    → stake_of o bs ≡ none
    → (drop_bonds o less bs).0 ≡ bs
unfolding drop_bonds
drop_bonds_absent o less [] h = refl
drop_bonds_absent o less (b ∷ bs) h = ground (arith, drop_bonds_absent o less bs)

-- The amounts that remain and the amount that is reported add up to the amounts before.
pub drop_bonds-amounts :
    (o : ℕ) (less : Option ℕ) (bs : List Bond)
    → IsUnique bs
    → amounts (drop_bonds o less bs).0 + (elim (stake_of o bs) [ none ↦ 0 | some a ↦ a ])
      ≡ amounts bs
unfolding drop_bonds
drop_bonds-amounts o less [] u = ground arith
drop_bonds-amounts o less (b ∷ bs) u = elim (Bool-cases (b.owner == o)) [
  | inl t ↦ ground (arith, drop_bonds_absent o (some b.amount) bs, eq_of_== b.owner o t)
  | inr t ↦ rw t (omega (arith, drop_bonds-amounts o less bs u.1))
]
