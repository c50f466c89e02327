-- ===== src/Staking/RoundEnd.antt =====
-- `on_finalize` of pallets/polkafoundry-staking/src/lib.rs: the work at the last block of a round.
pub mod Kept
pub mod Ledger
pub mod Turn
pub mod Leave
use polkafoundry.Base.{ℕ, Option, insert, mul_u32, if◌then◌else◌}
use polkafoundry.PerThing.{PerThing}
use polkafoundry.BigUint.{BigUint}
use polkafoundry.Staking.Types.{Event}
use polkafoundry.Staking.Round.{update, should_goto_next_round}
use polkafoundry.Staking.State.{Config, Storage, deposit_event}
use polkafoundry.Staking.Payout.{payout_stakers}
use polkafoundry.Staking.Updates.{update_collators, update_nominators, execute_exit_queue}
use polkafoundry.Staking.Election.{Supports, enact_election}

module _ {L B : Type 0} (cfg : Config L) (per : PerThing) (u : BigUint B)
    (elect : Storage L → Option Supports) where
  -- The calls of `on_finalize` after the new round has been written.
  unfoldable pub start_round : ℕ → Storage L → Storage L
  unfolding payout_stakers update_collators update_nominators execute_exit_queue enact_election
  start_round round s =
      let paid = payout_stakers cfg per u round s in
      let collators = update_collators cfg round paid in
      let nominators = update_nominators cfg round collators in
      let exits = execute_exit_queue cfg round nominators in
      let elected = (enact_election cfg elect round exits).1 in
      let staked = record elected {
        total_staked_at = insert round elected.total_staked elected.total_staked_at;
        total_issuance_at =
            insert round (cfg.currency.total_issuance elected.balances) elected.total_issuance_at;
      } in
      deposit_event (Event.new_round_start round (mul_u32 round s.settings.blocks_per_round)) staked

  unfoldable pub on_finalize : ℕ → Storage L → Storage L
  unfolding start_round
  on_finalize now s =
      let next = update now s.settings.blocks_per_round s.current_round in
      let turned = start_round next.index (record s { current_round = next }) in
      if should_goto_next_round now s.current_round then turned else s
