-- ===== src/Staking/Authorship.antt =====
-- `EventHandler` and `CanAuthor` for the staking pallet (pallets/polkafoundry-staking/src/lib.rs): the
-- reward points of block authors.
pub mod Points
use polkafoundry.Base.{ℕ, Bool, [], not, lookup, lookup_or, insert, add_u32}
use polkafoundry.Staking.State.{Storage, is_none}

module _ {L : Type 0} where
  unfoldable pub note_author : ℕ → Storage L → Storage L
  note_author author s =
      let now = s.current_round.index in
      let points = lookup_or [] now s.collator_points in
      let score_plus_20 = add_u32 (lookup_or 0 author points) 20 in
      record s {
        collator_points = insert now (insert author score_plus_20 points) s.collator_points;
        total_points = insert now (add_u32 (lookup_or 0 now s.total_points) 20) s.total_points;
      }

  unfoldable pub can_author : ℕ → Storage L → Bool
  can_author account s = not (is_none (lookup account s.collators))
