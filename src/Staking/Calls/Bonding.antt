-- ===== src/Staking/Calls/Bonding.antt =====
-- The calls `config`, `bond`, `force_onboard`, `bond_extra`, `bond_less` and `collator_unbond` of
-- pallets/polkafoundry-staking/src/lib.rs, statement by statement.
use polkafoundry.Base.{
  ℕ, List, [], ◌∷◌, leb, not, lookup, Origin, gets, modify, ensure, ok_or, ensure_root,
  ensure_signed, ◌>>=◌, ◌>>◌,
}
use polkafoundry.Staking.Types.{Bond, SettingStruct, Error, Event}
use polkafoundry.Staking.Round.{next_round_index}
use polkafoundry.Staking.Collator
use polkafoundry.Staking.State.{
  Config, Storage, Dispatch, withdraw_round, is_none, put_collator, remove_collator, put_exit,
  add_staked, deposit_event, reserve, unreserve,
}

module _ {L : Type 0} (cfg : Config L) where
  unfoldable pub config : Origin → SettingStruct → Dispatch L
  config origin settings = do
    ensure_root origin
    modify (λ s. record s { settings = settings })
    modify (deposit_event (Event.setting_changed settings))

  unfoldable pub bond : Origin → ℕ → Dispatch L
  bond origin amount = do
    who ← ensure_signed origin
    collators ← gets (λ s. s.collators)
    ensure (is_none (lookup who collators)) Error.already_bonded
    ensure (leb cfg.min_collator_stake amount) Error.bond_below_min
    current_round ← gets (λ s. s.current_round)
    modify (put_collator who (Collator.new amount (next_round_index current_round)))
    modify (add_staked amount)
    modify (reserve cfg.currency who amount)
    modify (deposit_event (Event.bonded who amount))

  unfoldable pub force_onboard : Origin → ℕ → Dispatch L
  force_onboard origin candidate = do
    ensure_root origin
    collators ← gets (λ s. s.collators)
    collator ← ok_or (lookup candidate collators) Error.candidate_not_exist
    ensure (not (Collator.is_active collator)) Error.candidate_not_active
    modify (put_collator candidate (Collator.force_bond collator))
    modify (deposit_event (Event.candidate_onboard candidate))

  unfoldable pub bond_extra : Origin → ℕ → Dispatch L
  bond_extra origin extra = do
    who ← ensure_signed origin
    collators ← gets (λ s. s.collators)
    collator ← ok_or (lookup who collators) Error.bond_not_exist
    ensure (Collator.is_active collator) Error.candidate_not_active
    current_round ← gets (λ s. s.current_round)
    modify (put_collator who (Collator.bond_extra extra (next_round_index current_round) collator))
    modify (add_staked extra)
    modify (reserve cfg.currency who extra)
    modify (deposit_event (Event.bond_extra who extra))

  unfoldable pub bond_less : Origin → ℕ → Dispatch L
  bond_less origin less = do
    who ← ensure_signed origin
    collators ← gets (λ s. s.collators)
    collator ← ok_or (lookup who collators) Error.bond_not_exist
    ensure (Collator.is_active collator) Error.candidate_not_active
    when ← gets withdraw_round
    after ← ok_or (Collator.bond_less less when collator).1 Error.underflow
    ensure (leb cfg.min_collator_stake after) Error.bond_below_min
    modify (put_collator who (Collator.bond_less less when collator).0)
    modify (deposit_event (Event.bond_less who less))

  -- The loop over the nominations of a collator that leaves.
  unfoldable pub leave_all : List Bond → Storage L → Storage L
  leave_all [] s = s
  leave_all (b ∷ bs) s = leave_all bs (unreserve cfg.currency b.owner b.amount s)

  unfoldable pub collator_unbond : Origin → Dispatch L
  collator_unbond origin = do
    who ← ensure_signed origin
    collators ← gets (λ s. s.collators)
    collator ← ok_or (lookup who collators) Error.bond_not_exist
    when ← gets withdraw_round
    modify (leave_all collator.nominations)
    modify (
        put_exit who
          (record { remaining = collator.active; unbonding = collator.unbonding; when = when }))
    modify (remove_collator who)
    modify (deposit_event (Event.candidate_leaving who when))
