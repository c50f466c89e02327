-- ===== src/Staking/Books.antt =====
-- The books of the collators in the storage of pallets/polkafoundry-staking/src/lib.rs: the methods
-- of `StakingCollators`.
pub mod Steps
pub mod Every
pub mod Rounds
pub mod Apart
pub mod Nominators
pub mod Life
use polkafoundry.Base.{
  ℕ, ◌+◌, ◌<◌, ◌≡◌, arith, true, false, none, some, List, [], ◌∷◌, Map, lookup, insert, erase,
  Origin, signed, u128_mod, push,
}
use polkafoundry.Staking.Types.{Bond}
use polkafoundry.Staking.Bonds.Chunks.{unbonded}
use polkafoundry.Staking.Bonds
use polkafoundry.Staking.Collator
use polkafoundry.Staking.Collator.{StakingCollators}
use polkafoundry.Staking.Collator.Ledger
use polkafoundry.Staking.Collator.Ledger.{IsBalanced}
use polkafoundry.Staking.State.{Storage}
use polkafoundry.Staking.Calls
use polkafoundry.Staking.Ops.{Op}

-- The books balance, and a collator that is not active has nothing unbonding.
pub record IsSound (c : StakingCollators) : Type 0 where
  pub books : IsBalanced c
  pub idle : Collator.is_active c ≡ false → unbonded c.unbonding ≡ 0

abbrev pub AllSound : Map StakingCollators → Type 0
AllSound [] = Unit
AllSound ((k, c) ∷ m) = IsSound c × AllSound m

pub lookup-AllSound :
    (k : ℕ) (c : StakingCollators) (m : Map StakingCollators)
    → AllSound m
    → lookup k m ≡ some c
    → IsSound c
lookup-AllSound k c [] a h = cc
lookup-AllSound k c ((j, d) ∷ m) a h = ground (arith, lookup-AllSound k c m a.1)

pub insert-AllSound :
    (k : ℕ) (c : StakingCollators) (m : Map StakingCollators)
    → AllSound m
    → IsSound c
    → AllSound (insert k c m)
insert-AllSound k c [] a h = (h, tt)
insert-AllSound k c ((j, d) ∷ m) a h = ground (arith, insert-AllSound k c m a.1 h)

pub erase-AllSound : (k : ℕ) (m : Map StakingCollators) → AllSound m → AllSound (erase k m)
erase-AllSound k [] a = tt
erase-AllSound k ((j, d) ∷ m) a = ground (arith, erase-AllSound k m a.1)

pub new-IsSound : (amount next : ℕ) → amount < u128_mod → IsSound (Collator.new amount next)
unfolding Collator.new
new-IsSound amount next h = record {
  books = Ledger.new-IsBalanced amount next h;
  idle = λ e. ground arith;
}

pub bond_extra-IsSound :
    (extra next : ℕ) (c : StakingCollators)
    → IsSound c
    → c.total + extra < u128_mod
    → IsSound (Collator.bond_extra extra next c)
unfolding Collator.bond_extra Collator.is_active
bond_extra-IsSound extra next c v h = record {
  books = Ledger.bond_extra-IsBalanced extra next c v.books h;
  idle = v.idle;
}

pub bond_less-IsSound :
    (less when : ℕ) (c : StakingCollators)
    → IsSound c
    → Collator.is_active c ≡ true
    → IsSound (Collator.bond_less less when c).0
unfolding Collator.bond_less Collator.is_active
bond_less-IsSound less when c v h = record {
  books = Ledger.bond_less-IsBalanced less when c v.books;
  idle = λ e. ground arith;
}

pub force_bond-IsSound :
    (c : StakingCollators)
    → IsSound c
    → Collator.is_active c ≡ false
    → IsSound (Collator.force_bond c)
unfolding Collator.force_bond Collator.is_active
force_bond-IsSound c v h = record {
  books = Ledger.force_bond-IsBalanced c v.books (v.idle h);
  idle = λ e. ground arith;
}

-- A change of the nominations alone.
nominations-IsSound :
    (c : StakingCollators) (bs : List Bond) → IsSound c → IsSound (record c { nominations = bs })
unfolding Collator.is_active
nominations-IsSound c bs v = record {
  books = record { balanced = v.books.balanced; bounded = v.books.bounded };
  idle = v.idle;
}

pub add_nomination-IsSound :
    (b : Bond) (c : StakingCollators) → IsSound c → IsSound (Collator.add_nomination b c).0
unfolding Collator.add_nomination
add_nomination-IsSound b c v = ground (arith, nominations-IsSound c (push c.nominations b) v)

pub nominate_extra-IsSound :
    (b : Bond) (c : StakingCollators) → IsSound c → IsSound (Collator.nominate_extra b c).0
unfolding Collator.nominate_extra
nominate_extra-IsSound b c v = nominations-IsSound c _ v

pub nominate_less-IsSound :
    (b : Bond) (c : StakingCollators) → IsSound c → IsSound (Collator.nominate_less b c).0
unfolding Collator.nominate_less
nominate_less-IsSound b c v = nominations-IsSound c _ v

pub rm_nomination-IsSound :
    (o : ℕ) (c : StakingCollators) → IsSound c → IsSound (Collator.rm_nomination o c).0
unfolding Collator.rm_nomination
rm_nomination-IsSound o c v =
    ground (arith, nominations-IsSound c (Bonds.drop_bonds o none c.nominations).0 v)

-- The amounts of a call are below 2 ^ 128, and `bond_extra` does not overflow the collator's total.
abbrev pub Fits : {L : Type 0} → Op → Origin → Storage L → Type 0
Fits (Op.bond amount) o s = amount < u128_mod
Fits (Op.bond_extra extra) (signed who) s =
    (c : StakingCollators) → lookup who s.collators ≡ some c → c.total + extra < u128_mod
Fits _ _ _ = Unit
