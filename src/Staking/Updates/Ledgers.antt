-- ===== src/Staking/Updates/Ledgers.antt =====
-- The ledgers and the recorded total stake under `update_collators` and `update_nominators` of
-- pallets/polkafoundry-staking/src/lib.rs.
use mathlib.Core.Option
use polkafoundry.Base.{
  ℕ, ◌≡◌, refl, [], ◌∷◌, Map, lookup, IsDistinct, write_each, lookup-write_each_self, ◌∙◌, ap, ◌+◌,
}
use polkafoundry.Staking.Collator.{StakingCollators}
use polkafoundry.Staking.Nominator
use polkafoundry.Staking.Nominator.{StakingNominators}
use polkafoundry.Staking.Nominator.Ledger as NominatorLedger
use polkafoundry.Staking.Nominator.Ledger.{IsBalanced}
use polkafoundry.Staking.Bonds.Chunks.{due}
use polkafoundry.Staking.State.{Config, Storage}
use polkafoundry.Staking.Updates.{updated, update_each_collator, update_collators}

abbrev pub AllBooked : Map StakingNominators → Type 0
AllBooked [] = Unit
AllBooked ((k, n) ∷ m) = IsBalanced n × AllBooked m

-- What comes due for all nominators together.
abbrev pub due_all : ℕ → Map StakingNominators → ℕ
due_all r [] = 0
due_all r ((k, n) ∷ m) = due r n.unbonding + due_all r m

module _ {L : Type 0} (cfg : Config L) (r : ℕ) where
  update_each_collator-writes :
      (es : Map StakingCollators) (s : Storage L)
      → ((update_each_collator cfg r es s).collators ≡ write_each (updated r) es s.collators)
        × ((update_each_collator cfg r es s).total_staked ≡ s.total_staked)
  unfolding update_each_collator
  update_each_collator-writes [] s = (refl, refl)
  update_each_collator-writes ((k, c) ∷ es) s = update_each_collator-writes es _

  -- `update_collators` updates the ledger of every collator once, whatever the order of the entries,
  -- and leaves the recorded total stake as it was.
  pub lookup-update_collators :
      (s : Storage L) (k : ℕ)
      → IsDistinct s.collators
      → (lookup k (update_collators cfg r s).collators
          ≡ Option.map (updated r) (lookup k s.collators))
        × ((update_collators cfg r s).total_staked ≡ s.total_staked)
  unfolding update_collators
  lookup-update_collators s k d =
      let (writes, staked) = update_each_collator-writes s.collators s in
      (ap (lookup k) writes ∙ lookup-write_each_self (updated r) s.collators k d, staked)

  update_each_collator-current_round :
      (es : Map StakingCollators) (s : Storage L)
      → (update_each_collator cfg r es s).current_round ≡ s.current_round
  unfolding update_each_collator
  update_each_collator-current_round [] s = refl
  update_each_collator-current_round ((k, c) ∷ es) s = update_each_collator-current_round es _

  pub update_collators-current_round :
      (s : Storage L) → (update_collators cfg r s).current_round ≡ s.current_round
  unfolding update_collators
  update_collators-current_round s = update_each_collator-current_round s.collators s
