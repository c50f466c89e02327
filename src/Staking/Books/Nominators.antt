-- ===== src/Staking/Books/Nominators.antt =====
-- The books of the nominators in the storage of pallets/polkafoundry-staking/src/lib.rs under every
-- call.
use polkafoundry.Base.{
  ℕ, ◌+◌, ◌<◌, ◌≡◌, ◌⊎◌, none, refl, arith, some, List, [], ◌∷◌, Map, lookup, insert, Origin, root,
  signed, unsigned, u128_mod, Option-cases, inl, inr,
}
use polkafoundry.Staking.Types.{Bond}
use polkafoundry.Staking.Search.{IsSorted}
use polkafoundry.Staking.Nominator
use polkafoundry.Staking.Nominator.{StakingNominators}
use polkafoundry.Staking.Nominator.Ledger
use polkafoundry.Staking.Nominator.Ledger.{IsBalanced}
use polkafoundry.Staking.Nominator.Adding.{add_nomination-IsBalanced, add_new_nomination-IsBalanced}
use polkafoundry.Staking.Bonds.Stakes.{stake_of}
use polkafoundry.Staking.State.{Config, Storage, withdraw_round}
use polkafoundry.Staking.Updates.Ledgers.{AllBooked}
use polkafoundry.Staking.Calls
use polkafoundry.Staking.Calls.{bond_of}
use polkafoundry.Staking.Ops.{Op, apply}

pub lookup-AllBooked :
    (k : ℕ) (n : StakingNominators) (m : Map StakingNominators)
    → AllBooked m
    → lookup k m ≡ some n
    → IsBalanced n
lookup-AllBooked k n [] a h = cc
lookup-AllBooked k n ((j, d) ∷ m) a h = ground (arith, lookup-AllBooked k n m a.1)

pub insert-AllBooked :
    (k : ℕ) (n : StakingNominators) (m : Map StakingNominators)
    → AllBooked m
    → IsBalanced n
    → AllBooked (insert k n m)
insert-AllBooked k n [] a h = (h, tt)
insert-AllBooked k n ((j, d) ∷ m) a h = ground (arith, insert-AllBooked k n m a.1 h)

new-IsBalanced : (b : Bond) → b.amount < u128_mod → IsBalanced (Nominator.new (b ∷ []) b.amount)
unfolding Nominator.new
new-IsBalanced b h = record { balanced = omega arith; bounded = h; unique = (refl, tt) }

-- What a call must not do: overflow the total of a nominator, or nominate a collator again that the
-- nominator nominates already, unless its nominations stand in the order of their collators.
abbrev pub Orderly : {L : Type 0} → Op → Origin → Storage L → Type 0
Orderly (Op.nominate candidate amount) (signed who) s =
    (amount < u128_mod)
    × ((n : StakingNominators)
        → lookup who s.nominators ≡ some n
        → ((stake_of candidate n.nominations ≡ none) ⊎ IsSorted n.nominations)
          × (n.total + amount < u128_mod))
Orderly (Op.nominate_extra candidate extra) (signed who) s =
    (n : StakingNominators) → lookup who s.nominators ≡ some n → n.total + extra < u128_mod
Orderly _ _ _ = Unit

added-IsBalanced :
    (b : Bond) (n : StakingNominators)
    → IsBalanced n
    → (stake_of b.owner n.nominations ≡ none) ⊎ IsSorted n.nominations
    → n.total + b.amount < u128_mod
    → IsBalanced (Nominator.add_nomination b n).0
added-IsBalanced b n v (inl none_yet) h = add_new_nomination-IsBalanced b n v none_yet h
added-IsBalanced b n v (inr sorted) h = (add_nomination-IsBalanced b n v sorted h).0

module _ {L : Type 0} (cfg : Config L) where
  record_nomination-AllBooked :
      (who candidate amount : ℕ) (s : Storage L)
      → AllBooked s.nominators
      → Orderly (Op.nominate candidate amount) (signed who) s
      → let b = bond_of candidate amount in
        AllBooked (Calls.record_nomination cfg who b (lookup who s.nominators) s).1.nominators
  unfolding Calls.record_nomination
  record_nomination-AllBooked who candidate amount s a (fits, orderly) =
      let b = bond_of candidate amount in
      elim (Option-cases (lookup who s.nominators)) [
        | inl e ↦ ground (
          arith,
          e,
          insert-AllBooked who (Nominator.new (b ∷ []) amount) s.nominators a
              (new-IsBalanced b fits),
        )
        | inr (n, e) ↦
            let (once, total) = orderly n e in
            let v = lookup-AllBooked who n s.nominators a e in
            ground (
              arith,
              e,
              insert-AllBooked who (Nominator.add_nomination b n).0 s.nominators a
                  (added-IsBalanced b n v once total),
            )
      ]

  nominate-AllBooked :
      (who candidate amount : ℕ) (s : Storage L)
      → AllBooked s.nominators
      → Orderly (Op.nominate candidate amount) (signed who) s
      → AllBooked (Calls.nominate cfg (signed who) candidate amount s).1.nominators
  unfolding Calls.nominate
  nominate-AllBooked who candidate amount s a f =
      elim (Option-cases (lookup candidate s.collators)) [
        | inl e ↦ ground arith
        | inr (c, e) ↦ ground (arith, record_nomination-AllBooked who candidate amount s a f)
      ]

  nominate_extra-AllBooked :
      (who candidate extra : ℕ) (s : Storage L)
      → AllBooked s.nominators
      → Orderly (Op.nominate_extra candidate extra) (signed who) s
      → AllBooked (Calls.nominate_extra cfg (signed who) candidate extra s).1.nominators
  unfolding Calls.nominate_extra
  nominate_extra-AllBooked who candidate extra s a f =
      let b = bond_of candidate extra in
      elim (Option-cases (lookup who s.nominators)) [
        | inl e ↦ ground arith
        | inr (n, e) ↦ ground (
          arith,
          insert-AllBooked who (Nominator.nominate_extra b n).0 s.nominators a (
              Ledger.nominate_extra-IsBalanced b n (lookup-AllBooked who n s.nominators a e)
                (f n e)),
        )
      ]

  nominate_less-AllBooked :
      (who candidate less : ℕ) (s : Storage L)
      → AllBooked s.nominators
      → AllBooked (Calls.nominate_less cfg (signed who) candidate less s).1.nominators
  unfolding Calls.nominate_less
  nominate_less-AllBooked who candidate less s a =
      let b = bond_of candidate less in
      elim (Option-cases (lookup who s.nominators)) [
        | inl e ↦ ground arith
        | inr (n, e) ↦ ground (
          arith,
          insert-AllBooked who (Nominator.nominate_less b (withdraw_round s) n).0 s.nominators a (
              Ledger.nominate_less-IsBalanced b (withdraw_round s) n
                (lookup-AllBooked who n s.nominators a e)),
        )
      ]

  nominator_leave_collator-AllBooked :
      (who candidate : ℕ) (s : Storage L)
      → AllBooked s.nominators
      → AllBooked (Calls.nominator_leave_collator cfg (signed who) candidate s).1.nominators
  unfolding Calls.nominator_leave_collator
  nominator_leave_collator-AllBooked who candidate s a =
      elim (Option-cases (lookup who s.nominators)) [
        | inl e ↦ ground arith
        | inr (n, e) ↦ ground (
          arith,
          insert-AllBooked who (Nominator.rm_nomination candidate (withdraw_round s) n).0
              s.nominators a
              (Ledger.rm_nomination-IsBalanced candidate (withdraw_round s) n
                (lookup-AllBooked who n s.nominators a e)),
        )
      ]

  bond-nominators :
      (o : Origin) (amount : ℕ) (s : Storage L)
      → (Calls.bond cfg o amount s).1.nominators ≡ s.nominators
  unfolding Calls.bond
  bond-nominators o amount s = ground arith

  force_onboard-nominators :
      (o : Origin) (candidate : ℕ) (s : Storage L)
      → (Calls.force_onboard cfg o candidate s).1.nominators ≡ s.nominators
  unfolding Calls.force_onboard
  force_onboard-nominators o candidate s = ground arith

  bond_extra-nominators :
      (o : Origin) (extra : ℕ) (s : Storage L)
      → (Calls.bond_extra cfg o extra s).1.nominators ≡ s.nominators
  unfolding Calls.bond_extra
  bond_extra-nominators o extra s = ground arith

  bond_less-nominators :
      (o : Origin) (less : ℕ) (s : Storage L)
      → (Calls.bond_less cfg o less s).1.nominators ≡ s.nominators
  unfolding Calls.bond_less
  bond_less-nominators o less s = ground arith

  leave_all-nominators :
      (bs : List Bond) (s : Storage L) → (Calls.leave_all cfg bs s).nominators ≡ s.nominators
  unfolding Calls.leave_all
  leave_all-nominators [] s = refl
  leave_all-nominators (b ∷ bs) s = leave_all-nominators bs _

  collator_unbond-nominators :
      (o : Origin) (s : Storage L) → (Calls.collator_unbond cfg o s).1.nominators ≡ s.nominators
  unfolding Calls.collator_unbond
  collator_unbond-nominators root s = refl
  collator_unbond-nominators unsigned s = refl
  collator_unbond-nominators (signed who) s = elim (Option-cases (lookup who s.collators)) [
    | inl e ↦ ground arith
    | inr (c, e) ↦ ground (arith, leave_all-nominators c.nominations s)
  ]

  -- Every call, with whatever result, keeps the books of every nominator: its total is its nominations and
  -- its unbonding chunks together, below 2 ^ 128, and no collator has two of the nominations.
  pub apply-AllBooked :
      (op : Op) (o : Origin) (s : Storage L)
      → AllBooked s.nominators
      → Orderly op o s
      → AllBooked (apply cfg op o s).1.nominators
  unfolding apply Calls.config Calls.nominate Calls.nominate_extra Calls.nominate_less
      Calls.nominator_leave_collator
  apply-AllBooked (Op.config settings) o s a f = ground arith
  apply-AllBooked (Op.bond amount) o s a f = rw (bond-nominators o amount s) a
  apply-AllBooked (Op.bond_extra extra) o s a f = rw (bond_extra-nominators o extra s) a
  apply-AllBooked (Op.bond_less less) o s a f = rw (bond_less-nominators o less s) a
  apply-AllBooked (Op.force_onboard candidate) o s a f =
      rw (force_onboard-nominators o candidate s) a
  apply-AllBooked Op.collator_unbond o s a f = rw (collator_unbond-nominators o s) a
  apply-AllBooked (Op.nominate candidate amount) (signed who) s a f =
      nominate-AllBooked who candidate amount s a f
  apply-AllBooked (Op.nominate_extra candidate extra) (signed who) s a f =
      nominate_extra-AllBooked who candidate extra s a f
  apply-AllBooked (Op.nominate_less candidate less) (signed who) s a f =
      nominate_less-AllBooked who candidate less s a
  apply-AllBooked (Op.nominator_leave_collator candidate) (signed who) s a f =
      nominator_leave_collator-AllBooked who candidate s a
  apply-AllBooked (Op.nominate candidate amount) root s a f = a
  apply-AllBooked (Op.nominate_extra candidate extra) root s a f = a
  apply-AllBooked (Op.nominate_less candidate less) root s a f = a
  apply-AllBooked (Op.nominator_leave_collator candidate) root s a f = a
  apply-AllBooked (Op.nominate candidate amount) unsigned s a f = a
  apply-AllBooked (Op.nominate_extra candidate extra) unsigned s a f = a
  apply-AllBooked (Op.nominate_less candidate less) unsigned s a f = a
  apply-AllBooked (Op.nominator_leave_collator candidate) unsigned s a f = a
