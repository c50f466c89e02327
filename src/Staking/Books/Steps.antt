-- ===== src/Staking/Books/Steps.antt =====
-- The books of the collators under the calls on a collator's own bond (pallets/polkafoundry-
-- staking/src/lib.rs).
use polkafoundry.Base.{
  ℕ, ◌<◌, ◌≡◌, refl, arith, List, [], ◌∷◌, lookup, Origin, root, signed, unsigned, Option-cases,
  inl, inr, u128_mod,
}
use polkafoundry.Staking.Types.{Bond}
use polkafoundry.Staking.Round.{next_round_index}
use polkafoundry.Staking.Collator
use polkafoundry.Staking.State.{Config, Storage, withdraw_round}
use polkafoundry.Staking.Calls
use polkafoundry.Staking.Ops.{Op}
use polkafoundry.Staking.Books.{
  AllSound, Fits, lookup-AllSound, insert-AllSound, erase-AllSound, new-IsSound, bond_extra-IsSound,
  bond_less-IsSound, force_bond-IsSound,
}

module _ {L : Type 0} (cfg : Config L) where
  pub leave_all-collators :
      (bs : List Bond) (s : Storage L) → (Calls.leave_all cfg bs s).collators ≡ s.collators
  unfolding Calls.leave_all
  leave_all-collators [] s = refl
  leave_all-collators (b ∷ bs) s = leave_all-collators bs _

  pub bond-AllSound :
      (amount : ℕ) (o : Origin) (s : Storage L)
      → AllSound s.collators
      → amount < u128_mod
      → AllSound (Calls.bond cfg o amount s).1.collators
  unfolding Calls.bond
  bond-AllSound amount (signed who) s a h = ground (
    arith,
    insert-AllSound who (Collator.new amount (next_round_index s.current_round)) s.collators a,
    new-IsSound amount (next_round_index s.current_round) h,
  )
  bond-AllSound amount root s a h = a
  bond-AllSound amount unsigned s a h = a

  pub bond_extra-AllSound :
      (extra : ℕ) (o : Origin) (s : Storage L)
      → AllSound s.collators
      → Fits (Op.bond_extra extra) o s
      → AllSound (Calls.bond_extra cfg o extra s).1.collators
  unfolding Calls.bond_extra
  bond_extra-AllSound extra (signed who) s a h = elim (Option-cases (lookup who s.collators)) [
    | inl e ↦ ground arith
    | inr (c, e) ↦
        let next = next_round_index s.current_round in
        ground (
          arith,
          insert-AllSound who (Collator.bond_extra extra next c) s.collators a,
          bond_extra-IsSound extra next c (lookup-AllSound who c s.collators a e) (h c e),
        )
  ]
  bond_extra-AllSound extra root s a h = a
  bond_extra-AllSound extra unsigned s a h = a

  pub bond_less-AllSound :
      (less : ℕ) (o : Origin) (s : Storage L)
      → AllSound s.collators
      → AllSound (Calls.bond_less cfg o less s).1.collators
  unfolding Calls.bond_less
  bond_less-AllSound less (signed who) s a = elim (Option-cases (lookup who s.collators)) [
    | inl e ↦ ground arith
    | inr (c, e) ↦
        let c' = (Collator.bond_less less (withdraw_round s) c).0 in
        ground (
          arith,
          insert-AllSound who c' s.collators a,
          bond_less-IsSound less (withdraw_round s) c (lookup-AllSound who c s.collators a e),
        )
  ]
  bond_less-AllSound less root s a = a
  bond_less-AllSound less unsigned s a = a

  pub force_onboard-AllSound :
      (who : ℕ) (o : Origin) (s : Storage L)
      → AllSound s.collators
      → AllSound (Calls.force_onboard cfg o who s).1.collators
  unfolding Calls.force_onboard
  force_onboard-AllSound who root s a = elim (Option-cases (lookup who s.collators)) [
    | inl e ↦ ground arith
    | inr (c, e) ↦ ground (
      arith,
      insert-AllSound who (Collator.force_bond c) s.collators a,
      force_bond-IsSound c (lookup-AllSound who c s.collators a e),
    )
  ]
  force_onboard-AllSound who (signed w) s a = a
  force_onboard-AllSound who unsigned s a = a

  pub collator_unbond-AllSound :
      (o : Origin) (s : Storage L)
      → AllSound s.collators
      → AllSound (Calls.collator_unbond cfg o s).1.collators
  unfolding Calls.collator_unbond
  collator_unbond-AllSound (signed who) s a = elim (Option-cases (lookup who s.collators)) [
    | inl e ↦ ground arith
    | inr (c, e) ↦
        ground (arith, leave_all-collators c.nominations s, erase-AllSound who s.collators a)
  ]
  collator_unbond-AllSound root s a = a
  collator_unbond-AllSound unsigned s a = a
