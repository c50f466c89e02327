-- ===== src/Staking/Authorship/Points.antt =====
-- The reward points that `note_author` of pallets/polkafoundry-staking/src/lib.rs keeps: those of a
-- round and those of its collators.
use polkafoundry.Base.{
  ℕ, ◌+◌, ◌≤◌, ◌<◌, ◌≡◌, arith, [], ◌∷◌, Map, lookup_or, insert, lookup-insert, u32_mod, add_u32,
  add_u32_exact,
}
use polkafoundry.Staking.State.{Storage}
use polkafoundry.Staking.Authorship.{note_author}

abbrev pub points_sum : Map ℕ → ℕ
points_sum [] = 0
points_sum ((k, p) ∷ m) = p + points_sum m

lookup_or-le : (k : ℕ) (m : Map ℕ) → lookup_or 0 k m ≤ points_sum m
lookup_or-le k [] = omega arith
lookup_or-le k ((j, p) ∷ m) = ground (arith, lookup_or-le k m)

points_sum-insert :
    (k p : ℕ) (m : Map ℕ) → points_sum (insert k p m) + lookup_or 0 k m ≡ points_sum m + p
points_sum-insert k p [] = omega arith
points_sum-insert k p ((j, q) ∷ m) = ground (arith, points_sum-insert k p m)

module _ {L : Type 0} where
  -- The total of a round is the sum over its collators.
  abbrev pub IsTallied : ℕ → Storage L → Type 0
  IsTallied r s = lookup_or 0 r s.total_points ≡ points_sum (lookup_or [] r s.collator_points)

  -- If the total points of every round are the sum of the points of its collators, they still are
  -- after an author is noted, which adds 20 points to the current round. (The total of the current
  -- round has room for 20.)
  pub note_author-IsTallied :
      (author : ℕ) (s : Storage L)
      → ((r : ℕ) → IsTallied r s)
      → lookup_or 0 s.current_round.index s.total_points + 20 < u32_mod
      → ((r : ℕ) → IsTallied r (note_author author s))
        × (lookup_or 0 s.current_round.index (note_author author s).total_points
            ≡ lookup_or 0 s.current_round.index s.total_points + 20)
  unfolding note_author
  note_author-IsTallied author s h room =
      let now = s.current_round.index in
      let points = lookup_or [] now s.collator_points in
      let score = add_u32 (lookup_or 0 author points) 20 in
      let total = add_u32 (lookup_or 0 now s.total_points) 20 in
      (
        λ r. ground (
          arith,
          h r,
          h now,
          lookup-insert now r total s.total_points,
          lookup-insert now r (insert author score points) s.collator_points,
          points_sum-insert author score points,
          lookup_or-le author points,
          add_u32_exact (lookup_or 0 author points) 20,
          add_u32_exact (lookup_or 0 now s.total_points) 20,
        ),
        ground (
          arith,
          lookup-insert now now total s.total_points,
          add_u32_exact (lookup_or 0 now s.total_points) 20,
        ),
      )
