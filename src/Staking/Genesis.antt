-- ===== src/Staking/Genesis.antt =====
-- The genesis of the staking pallet (`GenesisBuild` of pallets/polkafoundry-staking/src/lib.rs). A
-- failed `assert!` is `none`.
pub mod Totals
use polkafoundry.Base.{
  ℕ, Option, none, some, List, [], ◌∷◌, leb, add_u128, add_u32, insert, signed, if◌then◌else◌,
}
use polkafoundry.Staking.Types.{Event}
use polkafoundry.Staking.Round.{new_round}
use polkafoundry.Staking.State.{Config, Storage, put_staked, deposit_event}
use polkafoundry.Staking.Calls.{bond}

module _ {L : Type 0} (cfg : Config L) where
  -- The loop over the stakers, with the sum so far. The result of `bond` is dropped.
  unfoldable pub bond_stakers : List (ℕ × ℕ) → ℕ → Storage L → Option (ℕ × Storage L)
  bond_stakers [] total s = some (total, s)
  bond_stakers ((staker, balance) ∷ rest) total s =
      let after =
        bond_stakers rest (add_u128 total balance) (bond cfg (signed staker) balance s).1 in
      if leb balance (cfg.currency.free_balance staker s.balances) then after else none

  -- Round 1 starts at block 0.
  unfoldable pub first_round : Storage L → Storage L
  first_round s =
      let begun = record s {
        current_round = new_round 1 0 cfg.blocks_per_round;
        total_staked_at = insert 1 s.total_staked s.total_staked_at;
        total_issuance_at = insert 1 (cfg.currency.total_issuance s.balances) s.total_issuance_at;
        settings = record {
          bond_duration = cfg.bond_duration;
          blocks_per_round = cfg.blocks_per_round;
          desired_target = cfg.desired_target;
        };
      } in
      deposit_event (Event.new_round_start 1 (add_u32 1 cfg.blocks_per_round)) begun

  unfoldable pub build : List (ℕ × ℕ) → Storage L → Option (Storage L)
  unfolding bond_stakers first_round
  build stakers s = elim (bond_stakers stakers 0 s) [
    | none ↦ none
    | some (total, t) ↦ some (first_round (put_staked total t))
  ]
