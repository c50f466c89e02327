-- ===== src/Staking/Election.antt =====
-- The election of pallets/polkafoundry-staking/src/lib.rs: what the pallet tells the election provider
-- (`ElectionDataProvider`), and what it makes of the result (`collect_exposures`, `process_election`,
-- `enact_election`). Weights are left out. The provider is a function of the storage: it reads the
-- pallet's data through `targets` and `voters`, and is not part of this repository.
pub mod Exposures
pub mod Snapshot
use polkafoundry.Base.{
  ℕ, ◌+◌, Bool, false, Option, none, some, List, [], ◌∷◌, ◌++◌, map, Map, lookup, lookup_or, insert,
  length, ltb, ◌==◌, if◌then◌else◌, push, saturating_add_u128, Result, ok, err,
}
use polkafoundry.Staking.Types.{Bond, Exposure, Event, StakerStatus, validator, nominator}
use polkafoundry.Staking.Round.{next_election_prediction}
use polkafoundry.Staking.Collator.{StakingCollators, is_active}
use polkafoundry.Staking.Nominator.{StakingNominators}
use polkafoundry.Staking.State.{Config, Storage, deposit_event}

-- The voters of `Support` with their weights; and `Supports`.
abbrev pub Support : Type 0
Support = List (ℕ × ℕ)

abbrev pub Supports : Type 0
Supports = List (ℕ × Support)

-- A voter with its weight and its targets.
abbrev pub Voter : Type 0
Voter = ℕ × ℕ × List ℕ

pub data SnapshotError : Type 0 where
  target_snapshot_too_big voter_snapshot_too_big : SnapshotError

-- `maybe_max_len.map_or(false, |max_len| count > max_len)`
abbrev pub exceeds : ℕ → Option ℕ → Bool
exceeds count none = false
exceeds count (some max_len) = ltb max_len count

abbrev pub active_or_zero : Option StakingCollators → ℕ
active_or_zero none = 0
active_or_zero (some c) = if is_active c then c.active else 0

abbrev pub total_or_zero : Option StakingNominators → ℕ
total_or_zero none = 0
total_or_zero (some n) = n.total

module _ {L : Type 0} (cfg : Config L) where
  -- The closure of `collect_exposures` on one voter of a validator, and on all of them.
  unfoldable pub expose_voter : ℕ → ℕ → ℕ × ℕ → Exposure → Exposure
  expose_voter issuance who (voter, weight) e =
      let stake = cfg.to_currency weight issuance in
      let total = saturating_add_u128 e.total stake in
      if voter == who
      then record e { own = saturating_add_u128 e.own stake; total = total }
      else record e {
        others = push e.others (record { who = voter; value = stake });
        total = total;
      }

  unfoldable pub expose : ℕ → ℕ → Support → Exposure → Exposure
  unfolding expose_voter
  expose issuance who [] e = e
  expose issuance who (v ∷ voters) e = expose issuance who voters (expose_voter issuance who v e)

  unfoldable pub collect_exposures : Supports → Storage L → Map Exposure
  unfolding expose
  collect_exposures supports s =
      let issuance = cfg.currency.total_issuance s.balances in
      map
        (λ (v, support).
          (v, expose issuance v support (record { total = 0; own = 0; others = [] })))
        supports

  -- `RoundStakerClipped::insert(current_round, stash, exposure)` with its event.
  unfoldable pub record_exposures : ℕ → Map Exposure → Storage L → Storage L
  record_exposures round [] s = s
  record_exposures round ((stash, exposure) ∷ rest) s =
      let clipped = insert stash exposure (lookup_or [] round s.round_staker_clipped) in
      record_exposures round rest (
        deposit_event (Event.collator_choosen round stash exposure.total)
          (record s { round_staker_clipped = insert round clipped s.round_staker_clipped }))

  unfoldable pub process_election : Supports → ℕ → Storage L → List ℕ × Storage L
  unfolding collect_exposures record_exposures
  process_election supports round s =
      let exposures = collect_exposures supports s in
      (map (λ (x, _). x) exposures, record_exposures round exposures s)

  -- `none` is a failed election, which is logged.
  unfoldable pub enact_election :
      (Storage L → Option Supports) → ℕ → Storage L → Option (List ℕ) × Storage L
  unfolding process_election
  enact_election elect round s = elim (elect s) [
    | none ↦ (none, s)
    | some supports ↦ let (stashes, s') = process_election supports round s in (some stashes, s')
  ]

  unfoldable pub slashable_balance_of : Storage L → ℕ → StakerStatus → ℕ
  slashable_balance_of s stash validator = active_or_zero (lookup stash s.collators)
  slashable_balance_of s stash nominator = total_or_zero (lookup stash s.nominators)
  slashable_balance_of s stash _ = 0

  unfoldable pub slashable_balance_of_vote_weight : Storage L → ℕ → StakerStatus → ℕ
  unfolding slashable_balance_of
  slashable_balance_of_vote_weight s stash status =
      cfg.to_vote (slashable_balance_of s stash status) (cfg.currency.total_issuance s.balances)

  unfoldable pub get_npos_voters : Storage L → List Voter
  unfolding slashable_balance_of_vote_weight
  get_npos_voters s =
      map (λ (v, _). (v, slashable_balance_of_vote_weight s v validator, v ∷ [])) s.collators
      ++ map
          (λ (n, ledger). (
            n,
            slashable_balance_of_vote_weight s n nominator,
            map (λ (b : Bond). b.owner) ledger.nominations,
          ))
          s.nominators

  unfoldable pub get_npos_targets : Storage L → List ℕ
  get_npos_targets s = map (λ (v, _). v) s.collators

  -- `Collators::iter().filter(|c| c.1.is_active()).count()`
  unfoldable pub count_active : Map StakingCollators → ℕ
  count_active [] = 0
  count_active ((v, c) ∷ m) = (if is_active c then 1 else 0) + count_active m

  unfoldable pub targets : Option ℕ → Storage L → Result SnapshotError (List ℕ)
  unfolding count_active get_npos_targets
  targets maybe_max_len s =
      if exceeds (count_active s.collators) maybe_max_len
      then err target_snapshot_too_big
      else ok (get_npos_targets s)

  unfoldable pub voters : Option ℕ → Storage L → Result SnapshotError (List Voter)
  unfolding count_active get_npos_voters
  voters maybe_max_len s =
      if exceeds (length s.nominators + count_active s.collators) maybe_max_len
      then err voter_snapshot_too_big
      else ok (get_npos_voters s)

  unfoldable pub desired_targets : Storage L → ℕ
  desired_targets s = s.settings.desired_target

  unfoldable pub next_election : Storage L → ℕ
  next_election s = next_election_prediction s.current_round
