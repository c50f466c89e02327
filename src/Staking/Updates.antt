-- ===== src/Staking/Updates.antt =====
-- What the end of a round does to the ledgers: `update_collators`, `update_nominators` and
-- `execute_exit_queue` of pallets/polkafoundry-staking/src/lib.rs. Each loop walks the entries that
-- the map has when it starts.
pub mod Ledgers
pub mod Exits
pub mod Released
use polkafoundry.Base.{ℕ, List, [], ◌∷◌, Map, ltb, sub_u128, if◌then◌else◌}
use polkafoundry.Staking.Types.{UnBondChunk, Leaving}
use polkafoundry.Staking.Collator
use polkafoundry.Staking.Collator.{StakingCollators}
use polkafoundry.Staking.Nominator
use polkafoundry.Staking.Nominator.{StakingNominators}
use polkafoundry.Staking.State.{
  Config, Storage, put_collator, put_nominator, put_exit, remove_exit, put_staked, unreserve,
}

-- The collator before and after the release of what has come due.
unfoldable pub settled : ℕ → StakingCollators → StakingCollators
settled r c = Collator.consolidate_active r (Collator.active_onboard c)

unfoldable pub updated : ℕ → StakingCollators → StakingCollators
updated r c = Collator.consolidate_unbonded r (settled r c)

-- The chunks that an exit keeps when it is not due.
unfoldable pub keep_later : ℕ → List UnBondChunk → List UnBondChunk
keep_later r [] = []
keep_later r (c ∷ cs) = let kept = keep_later r cs in if ltb r c.round then c ∷ kept else kept

module _ {L : Type 0} (cfg : Config L) (current_round : ℕ) where
  unfoldable pub update_each_collator : Map StakingCollators → Storage L → Storage L
  update_each_collator [] s = s
  update_each_collator ((acc, collator) ∷ rest) s =
      let before = settled current_round collator in
      let after = updated current_round collator in
      let freed = unreserve cfg.currency acc (sub_u128 before.total after.total) s in
      update_each_collator rest (put_collator acc after freed)

  unfoldable pub update_collators : Storage L → Storage L
  unfolding update_each_collator
  update_collators s = update_each_collator s.collators s

  unfoldable pub update_each_nominator : Map StakingNominators → Storage L → Storage L
  update_each_nominator [] s = s
  update_each_nominator ((acc, nominations) ∷ rest) s =
      let after = Nominator.consolidate_unbonded current_round nominations in
      let unbonded = sub_u128 nominations.total after.total in
      let staked = put_staked (sub_u128 s.total_staked unbonded) s in
      let freed = unreserve cfg.currency acc unbonded staked in
      update_each_nominator rest (put_nominator acc after freed)

  unfoldable pub update_nominators : Storage L → Storage L
  unfolding update_each_nominator
  update_nominators s = update_each_nominator s.nominators s

  -- `unreserve(acc, value)` and `TotalStaked::put(current_staked - value)`, where `current_staked` was
  -- read when the loop came to the account.
  unfoldable pub pay_out : ℕ → ℕ → ℕ → Storage L → Storage L
  pay_out acc current_staked value s =
      put_staked (sub_u128 current_staked value) (unreserve cfg.currency acc value s)

  -- The `filter` of an exit that is not due: its chunks that are due are paid out.
  unfoldable pub pay_due : ℕ → ℕ → List UnBondChunk → Storage L → Storage L
  unfolding pay_out
  pay_due acc staked [] s = s
  pay_due acc staked (c ∷ cs) s =
      pay_due acc staked cs (if ltb current_round c.round then s else pay_out acc staked c.value s)

  -- The loop over the chunks of an exit that is due.
  unfoldable pub pay_all : ℕ → ℕ → List UnBondChunk → Storage L → Storage L
  unfolding pay_out
  pay_all acc staked [] s = s
  pay_all acc staked (c ∷ cs) s = pay_all acc staked cs (pay_out acc staked c.value s)

  unfoldable pub execute_exit : ℕ → Leaving → Storage L → Storage L
  unfolding pay_out pay_due keep_later pay_all
  execute_exit acc exit s =
      let staked = s.total_staked in
      let waiting =
        put_exit acc (record exit { unbonding = keep_later current_round exit.unbonding })
          (pay_due acc staked exit.unbonding s) in
      let left =
        remove_exit acc (pay_all acc staked exit.unbonding (pay_out acc staked exit.remaining s)) in
      if ltb current_round exit.when then waiting else left

  unfoldable pub execute_each_exit : Map Leaving → Storage L → Storage L
  unfolding execute_exit
  execute_each_exit [] s = s
  execute_each_exit ((acc, exit) ∷ rest) s = execute_each_exit rest (execute_exit acc exit s)

  unfoldable pub execute_exit_queue : Storage L → Storage L
  unfolding execute_each_exit
  execute_exit_queue s = execute_each_exit s.exit_queue s
