-- ===== src/Staking/Atomic.antt =====
-- What a call of pallets/polkafoundry-staking/src/lib.rs leaves behind when it fails.
use polkafoundry.Base.{
  ℕ, ◌≡◌, ◌⊎◌, arith, none, some, [], ◌∷◌, lookup, Origin, err, Failure, error, signed,
}
use polkafoundry.Staking.Types.{Error}
use polkafoundry.Staking.State.{Config, Storage, put_nominator}
use polkafoundry.Staking.Nominator
use polkafoundry.Staking.Nominator.{StakingNominators}
use polkafoundry.Staking.Calls.{
  config, bond, force_onboard, bond_extra, bond_less, collator_unbond, record_nomination, nominate,
  nominate_extra, nominate_less, nominator_leave_collator, bond_of,
}
use polkafoundry.Staking.Ops.{Op, apply}

-- Every call but `nominate`.
abbrev pub IsChecked : Op → Type 0
IsChecked (Op.nominate _ _) = ⊥
IsChecked _ = Unit

module _ {L : Type 0} (cfg : Config L) where
  -- Every call but `nominate` is atomic: if it fails, for whatever reason, the storage is as before.
  pub apply-atomic :
      (op : Op) (o : Origin) (s : Storage L) (e : Failure Error)
      → IsChecked op
      → (apply cfg op o s).0 ≡ err e
      → (apply cfg op o s).1 ≡ s
  unfolding apply config bond force_onboard bond_extra bond_less collator_unbond nominate_extra
      nominate_less nominator_leave_collator
  apply-atomic (Op.config settings) o s e k h = ground arith
  apply-atomic (Op.bond amount) o s e k h = ground arith
  apply-atomic (Op.bond_extra extra) o s e k h = ground arith
  apply-atomic (Op.bond_less less) o s e k h = ground arith
  apply-atomic (Op.force_onboard candidate) o s e k h = ground arith
  apply-atomic Op.collator_unbond o s e k h = ground arith
  apply-atomic (Op.nominate candidate amount) o s e k h = absurd k
  apply-atomic (Op.nominate_extra candidate extra) o s e k h = ground arith
  apply-atomic (Op.nominate_less candidate less) o s e k h = ground arith
  apply-atomic (Op.nominator_leave_collator candidate) o s e k h = ground arith

  -- The nominator that `nominate` writes before its last check.
  abbrev pub nominator_after : Storage L → ℕ → ℕ → ℕ → StakingNominators
  nominator_after s who candidate amount = elim (lookup who s.nominators) [
    | none ↦ Nominator.new (bond_of candidate amount ∷ []) amount
    | some n ↦ (Nominator.add_nomination (bond_of candidate amount) n).0
  ]

  -- A signed `nominate` that fails leaves the storage as before, or it fails with `NominationNotExist`
  -- and the storage differs by one write: the nominator's ledger already has the nomination.
  pub nominate_error :
      (who candidate amount : ℕ) (s : Storage L) (e : Failure Error)
      → (nominate cfg (signed who) candidate amount s).0 ≡ err e
      → ((nominate cfg (signed who) candidate amount s).1 ≡ s)
        ⊎ ((e ≡ error Error.nomination_not_exist)
            × ((nominate cfg (signed who) candidate amount s).1
                ≡ put_nominator who (nominator_after s who candidate amount) s))
  unfolding nominate record_nomination
  nominate_error who candidate amount s e h = ground arith
