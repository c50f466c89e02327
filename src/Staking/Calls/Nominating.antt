-- ===== src/Staking/Calls/Nominating.antt =====
-- The calls `nominate`, `nominate_extra`, `nominate_less` and `nominator_leave_collator` of
-- pallets/polkafoundry-staking/src/lib.rs, statement by statement.
use polkafoundry.Base.{
  ℕ, Option, none, some, [], ◌∷◌, ltb, leb, length, lookup, Origin, gets, modify, ensure, ok_or,
  ensure_signed, ◌>>=◌, ◌>>◌,
}
use polkafoundry.Staking.Types.{Bond, Error, Event}
use polkafoundry.Staking.Collator
use polkafoundry.Staking.Nominator
use polkafoundry.Staking.Nominator.{StakingNominators}
use polkafoundry.Staking.State.{
  Config, Dispatch, withdraw_round, put_collator, put_nominator, add_staked, deposit_event, reserve,
}

abbrev pub bond_of : ℕ → ℕ → Bond
bond_of owner amount = record { owner = owner; amount = amount }

module _ {L : Type 0} (cfg : Config L) where
  -- The `if let Some(mut nominator)` of `nominate`.
  unfoldable pub record_nomination : ℕ → Bond → Option StakingNominators → Dispatch L
  record_nomination who b (some nominator) = do
    ensure (Nominator.add_nomination b nominator).1 Error.already_nominated_collator
    modify (put_nominator who (Nominator.add_nomination b nominator).0)
  record_nomination who b none = modify (put_nominator who (Nominator.new (b ∷ []) b.amount))

  unfoldable pub nominate : Origin → ℕ → ℕ → Dispatch L
  unfolding record_nomination
  nominate origin candidate amount = do
    who ← ensure_signed origin
    ensure (leb cfg.min_nominator_stake amount) Error.nominate_below_min
    collators ← gets (λ s. s.collators)
    collator ← ok_or (lookup candidate collators) Error.candidate_not_exist
    ensure (Collator.is_active collator) Error.candidate_not_active
    ensure (ltb (length collator.nominations) cfg.max_nominations_per_collator)
        Error.too_many_nominations
    nominators ← gets (λ s. s.nominators)
    record_nomination who (bond_of candidate amount) (lookup who nominators)
    ensure (Collator.add_nomination (bond_of who amount) collator).1 Error.nomination_not_exist
    modify (put_collator candidate (Collator.add_nomination (bond_of who amount) collator).0)
    modify (reserve cfg.currency who amount)
    modify (add_staked amount)
    modify (deposit_event (Event.nominate candidate amount))

  unfoldable pub nominate_extra : Origin → ℕ → ℕ → Dispatch L
  nominate_extra origin candidate extra = do
    who ← ensure_signed origin
    collators ← gets (λ s. s.collators)
    collator ← ok_or (lookup candidate collators) Error.candidate_not_exist
    ensure (Collator.is_active collator) Error.candidate_not_active
    nominators ← gets (λ s. s.nominators)
    nominator ← ok_or (lookup who nominators) Error.nomination_not_exist
    _ ←
        ok_or (Nominator.nominate_extra (bond_of candidate extra) nominator).1
          Error.candidate_not_exist
    _ ← ok_or (Collator.nominate_extra (bond_of who extra) collator).1 Error.nomination_not_exist
    modify (put_collator candidate (Collator.nominate_extra (bond_of who extra) collator).0)
    modify (put_nominator who (Nominator.nominate_extra (bond_of candidate extra) nominator).0)
    modify (reserve cfg.currency who extra)
    modify (add_staked extra)
    modify (deposit_event (Event.nominate_extra candidate extra))

  unfoldable pub nominate_less : Origin → ℕ → ℕ → Dispatch L
  nominate_less origin candidate less = do
    who ← ensure_signed origin
    collators ← gets (λ s. s.collators)
    collator ← ok_or (lookup candidate collators) Error.candidate_not_exist
    ensure (Collator.is_active collator) Error.candidate_not_active
    nominators ← gets (λ s. s.nominators)
    nominator ← ok_or (lookup who nominators) Error.nomination_not_exist
    when ← gets withdraw_round
    first ←
        ok_or (Nominator.nominate_less (bond_of candidate less) when nominator).1
          Error.candidate_not_exist
    after ← ok_or first Error.underflow
    ensure (leb cfg.min_nominator_stake after) Error.nominate_below_min
    second ← ok_or (Collator.nominate_less (bond_of who less) collator).1 Error.nomination_not_exist
    after ← ok_or second Error.underflow
    ensure (leb cfg.min_nominator_stake after) Error.nominate_below_min
    modify (put_collator candidate (Collator.nominate_less (bond_of who less) collator).0)
    modify (put_nominator who (Nominator.nominate_less (bond_of candidate less) when nominator).0)
    modify (deposit_event (Event.nominate_less candidate less))

  unfoldable pub nominator_leave_collator : Origin → ℕ → Dispatch L
  nominator_leave_collator origin candidate = do
    who ← ensure_signed origin
    nominators ← gets (λ s. s.nominators)
    nomination ← ok_or (lookup who nominators) Error.nomination_not_exist
    collators ← gets (λ s. s.collators)
    collator ← ok_or (lookup candidate collators) Error.candidate_not_exist
    when ← gets withdraw_round
    _ ← ok_or (Nominator.rm_nomination candidate when nomination).1 Error.candidate_not_exist
    _ ← ok_or (Collator.rm_nomination who collator).1 Error.nomination_not_exist
    modify (put_collator candidate (Collator.rm_nomination who collator).0)
    modify (put_nominator who (Nominator.rm_nomination candidate when nomination).0)
    modify (deposit_event (Event.nominator_leave_collator who candidate))
