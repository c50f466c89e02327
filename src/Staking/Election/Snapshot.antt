-- ===== src/Staking/Election/Snapshot.antt =====
-- What `targets` of pallets/polkafoundry-staking/src/lib.rs tells the election provider.
use polkafoundry.Base.{ℕ, ◌≤◌, ◌<◌, ◌≡◌, refl, arith, some, List, [], ◌∷◌, map, Map, length, ok}
use polkafoundry.Staking.State.{Config, Storage}
use polkafoundry.Staking.Election.{count_active, get_npos_targets, targets}

length-map_keys : {V : Type 0} (m : Map V) → length (map (λ ((v, _) : ℕ × V). v) m) ≡ length m
length-map_keys [] = refl
length-map_keys (x ∷ m) = omega (arith, length-map_keys m)

module _ {L : Type 0} (cfg : Config L) where
  -- `targets` compares the limit with the number of the active collators but returns all of them: where
  -- the active ones are within the limit and all of them are not, it succeeds with a list over the limit.
  pub targets_over_limit :
      (max_len : ℕ) (s : Storage L)
      → count_active cfg s.collators ≤ max_len
      → max_len < length s.collators
      → (ts : List ℕ) × (targets cfg (some max_len) s ≡ ok ts) × (max_len < length ts)
  unfolding targets get_npos_targets
  targets_over_limit max_len s h k =
      (map (λ (v, _). v) s.collators, ground arith, omega (arith, length-map_keys s.collators))
