-- ===== src/Staking/Books/Rounds.antt =====
-- The books of the collators under `update_collators` of pallets/polkafoundry-staking/src/lib.rs.
use polkafoundry.Base.{ℕ, arith, [], ◌∷◌, Map}
use polkafoundry.Staking.Bonds.Chunks.{release-sum}
use polkafoundry.Staking.Collator
use polkafoundry.Staking.Collator.{StakingCollators}
use polkafoundry.Staking.Collator.Ledger
use polkafoundry.Staking.State.{Config, Storage}
use polkafoundry.Staking.Updates.{settled, updated, update_each_collator}
use polkafoundry.Staking.Books.{IsSound, AllSound, insert-AllSound}

active_onboard-IsSound : (c : StakingCollators) → IsSound c → IsSound (Collator.active_onboard c)
unfolding Collator.active_onboard Collator.is_active
active_onboard-IsSound c v = ground (arith, v.idle)

settled-IsSound : (r : ℕ) (c : StakingCollators) → IsSound c → IsSound (settled r c)
unfolding settled Collator.consolidate_active Collator.is_active
settled-IsSound r c v =
    let a = active_onboard-IsSound c v in
    record {
      books = Ledger.consolidate_active-IsBalanced r (Collator.active_onboard c) a.books;
      idle = a.idle;
    }

-- Consolidating a ledger at the end of a round keeps its books.
pub updated-IsSound : (r : ℕ) (c : StakingCollators) → IsSound c → IsSound (updated r c)
unfolding updated Collator.consolidate_unbonded Collator.is_active
updated-IsSound r c v =
    let a = settled-IsSound r c v in
    record {
      books = (Ledger.consolidate_unbonded-IsBalanced r (settled r c) a.books).0;
      idle = λ e. omega (
        arith,
        a.idle e,
        a.books.balanced,
        a.books.bounded,
        release-sum r (settled r c).total (settled r c).unbonding,
      );
    }

module _ {L : Type 0} (cfg : Config L) (r : ℕ) where
  pub update_each_collator-AllSound :
      (es : Map StakingCollators) (s : Storage L)
      → AllSound es
      → AllSound s.collators
      → AllSound (update_each_collator cfg r es s).collators
  unfolding update_each_collator
  update_each_collator-AllSound [] s a b = b
  update_each_collator-AllSound ((k, c) ∷ es) s a b =
      update_each_collator-AllSound es _ a.1
        (insert-AllSound k (updated r c) s.collators b (updated-IsSound r c a.0))
