-- ===== src/Staking/Books/Every.antt =====
-- The books of the collators under the calls on nominations, and under a call of any kind
-- (pallets/polkafoundry-staking/src/lib.rs).
use polkafoundry.Base.{
  ℕ, ◌≡◌, refl, arith, Option, none, some, lookup, Origin, root, signed, unsigned, Option-cases,
  inl, inr,
}
use polkafoundry.Staking.Types.{Bond}
use polkafoundry.Staking.Collator
use polkafoundry.Staking.Nominator.{StakingNominators}
use polkafoundry.Staking.State.{Config, Storage}
use polkafoundry.Staking.Calls
use polkafoundry.Staking.Calls.{bond_of}
use polkafoundry.Staking.Ops.{Op, apply}
use polkafoundry.Staking.Books.{
  AllSound, Fits, lookup-AllSound, insert-AllSound, add_nomination-IsSound, nominate_extra-IsSound,
  nominate_less-IsSound, rm_nomination-IsSound,
}
use polkafoundry.Staking.Books.Steps.{
  bond-AllSound, bond_extra-AllSound, bond_less-AllSound, force_onboard-AllSound,
  collator_unbond-AllSound,
}

module _ {L : Type 0} (cfg : Config L) where
  record_nomination-collators :
      (who : ℕ) (b : Bond) (n : Option StakingNominators) (s : Storage L)
      → (Calls.record_nomination cfg who b n s).1.collators ≡ s.collators
  unfolding Calls.record_nomination
  record_nomination-collators who b none s = refl
  record_nomination-collators who b (some n) s = ground arith

  nominate-AllSound :
      (candidate amount : ℕ) (o : Origin) (s : Storage L)
      → AllSound s.collators
      → AllSound (Calls.nominate cfg o candidate amount s).1.collators
  unfolding Calls.nominate
  nominate-AllSound candidate amount (signed who) s a =
      elim (Option-cases (lookup candidate s.collators)) [
        | inl e ↦ ground arith
        | inr (c, e) ↦
            let c' = (Collator.add_nomination (bond_of who amount) c).0 in
            ground (
              arith,
              record_nomination-collators who (bond_of candidate amount) (lookup who s.nominators)
                  s,
              insert-AllSound candidate c' s.collators a,
              add_nomination-IsSound (bond_of who amount) c
                  (lookup-AllSound candidate c s.collators a e),
            )
      ]
  nominate-AllSound candidate amount root s a = a
  nominate-AllSound candidate amount unsigned s a = a

  nominate_extra-AllSound :
      (candidate extra : ℕ) (o : Origin) (s : Storage L)
      → AllSound s.collators
      → AllSound (Calls.nominate_extra cfg o candidate extra s).1.collators
  unfolding Calls.nominate_extra
  nominate_extra-AllSound candidate extra (signed who) s a =
      elim (Option-cases (lookup candidate s.collators)) [
        | inl e ↦ ground arith
        | inr (c, e) ↦
            let c' = (Collator.nominate_extra (bond_of who extra) c).0 in
            ground (
              arith,
              insert-AllSound candidate c' s.collators a,
              nominate_extra-IsSound (bond_of who extra) c
                  (lookup-AllSound candidate c s.collators a e),
            )
      ]
  nominate_extra-AllSound candidate extra root s a = a
  nominate_extra-AllSound candidate extra unsigned s a = a

  nominate_less-AllSound :
      (candidate less : ℕ) (o : Origin) (s : Storage L)
      → AllSound s.collators
      → AllSound (Calls.nominate_less cfg o candidate less s).1.collators
  unfolding Calls.nominate_less
  nominate_less-AllSound candidate less (signed who) s a =
      elim (Option-cases (lookup candidate s.collators)) [
        | inl e ↦ ground arith
        | inr (c, e) ↦
            let c' = (Collator.nominate_less (bond_of who less) c).0 in
            ground (
              arith,
              insert-AllSound candidate c' s.collators a,
              nominate_less-IsSound (bond_of who less) c
                  (lookup-AllSound candidate c s.collators a e),
            )
      ]
  nominate_less-AllSound candidate less root s a = a
  nominate_less-AllSound candidate less unsigned s a = a

  nominator_leave_collator-AllSound :
      (candidate : ℕ) (o : Origin) (s : Storage L)
      → AllSound s.collators
      → AllSound (Calls.nominator_leave_collator cfg o candidate s).1.collators
  unfolding Calls.nominator_leave_collator
  nominator_leave_collator-AllSound candidate (signed who) s a =
      elim (Option-cases (lookup candidate s.collators)) [
        | inl e ↦ ground arith
        | inr (c, e) ↦
            let c' = (Collator.rm_nomination who c).0 in
            ground (
              arith,
              insert-AllSound candidate c' s.collators a,
              rm_nomination-IsSound who c (lookup-AllSound candidate c s.collators a e),
            )
      ]
  nominator_leave_collator-AllSound candidate root s a = a
  nominator_leave_collator-AllSound candidate unsigned s a = a

  -- Every call, with whatever result, keeps the books of every collator: the total is the active, the
  -- locked and the unbonding amounts together, below 2 ^ 128, and a collator that is not active has
  -- nothing unbonding. (`bond_extra` must not overflow the total.)
  pub apply-AllSound :
      (op : Op) (o : Origin) (s : Storage L)
      → AllSound s.collators
      → Fits op o s
      → AllSound (apply cfg op o s).1.collators
  unfolding apply Calls.config
  apply-AllSound (Op.config settings) o s a f = ground arith
  apply-AllSound (Op.bond amount) o s a f = bond-AllSound cfg amount o s a f
  apply-AllSound (Op.bond_extra extra) o s a f = bond_extra-AllSound cfg extra o s a f
  apply-AllSound (Op.bond_less less) o s a f = bond_less-AllSound cfg less o s a
  apply-AllSound (Op.force_onboard candidate) o s a f = force_onboard-AllSound cfg candidate o s a
  apply-AllSound Op.collator_unbond o s a f = collator_unbond-AllSound cfg o s a
  apply-AllSound (Op.nominate candidate amount) o s a f = nominate-AllSound candidate amount o s a
  apply-AllSound (Op.nominate_extra candidate extra) o s a f =
      nominate_extra-AllSound candidate extra o s a
  apply-AllSound (Op.nominate_less candidate less) o s a f =
      nominate_less-AllSound candidate less o s a
  apply-AllSound (Op.nominator_leave_collator candidate) o s a f =
      nominator_leave_collator-AllSound candidate o s a
