-- ===== src/Staking/Search.antt =====
-- `binary_search` of the standard library's slices, as `add_nomination` of
-- pallets/polkafoundry-staking/src/lib.rs calls it on the list of bonds. The loop keeps the half-open
-- range [left, right); the fuel counts its rounds.
pub mod Sound
pub mod Enough
use polkafoundry.Base.{
  ℕ, zero, suc, ◌+◌, ◌-◌, ◌/◌, ◌<◌, ◌≡◌, ◌≢◌, List, arith, none, some, Ordering, compare, ltb,
  length, get_elem?, if◌then◌else◌,
}
use polkafoundry.Staking.Types.{Bond}

-- `Ok(index)` or `Err(index)`
pub data Search : Type 0 where
  found missing : ℕ → Search

-- The owner of the bond at an index; the loop reads within the list only.
abbrev pub owner_at : List Bond → ℕ → ℕ
owner_at xs i = elim (get_elem? xs i) [ none ↦ 0 | some b ↦ b.owner ]

unfoldable pub search_loop : ℕ → List Bond → ℕ → ℕ → ℕ → Search
search_loop zero xs o left right = missing left
search_loop (suc f) xs o left right =
    let mid = left + (right - left) / 2 in
    let low = search_loop f xs o (mid + 1) right in
    let high = search_loop f xs o left mid in
    let hit = found mid in
    let stop = missing left in
    let step : Search = elim (compare (owner_at xs mid) o) [
      | Ordering.lt ↦ low
      | Ordering.gt ↦ high
      | Ordering.eq ↦ hit
    ] in
    if ltb left right then step else stop

unfoldable pub binary_search : List Bond → Bond → Search
unfolding search_loop
binary_search xs b = search_loop (length xs) xs b.owner 0 (length xs)

-- Strictly increasing owners.
abbrev pub IsSorted : List Bond → Type 0
IsSorted xs = (i j : ℕ) → i < j → j < length xs → owner_at xs i < owner_at xs j

-- What an answer means.
abbrev pub Answers : List Bond → ℕ → Search → Type 0
Answers xs o (found i) = (i < length xs) × (owner_at xs i ≡ o)
Answers xs o (missing i) = (j : ℕ) → j < length xs → owner_at xs j ≢ o
