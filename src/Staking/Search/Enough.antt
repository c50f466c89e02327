-- ===== src/Staking/Search/Enough.antt =====
-- The rounds that `binary_search` needs.
use polkafoundry.Base.{
  ℕ, zero, suc, ◌+◌, ◌-◌, ◌/◌, ◌≤◌, ◌≡◌, refl, arith, List, ltb, length, inl, inr, Bool-cases,
  ltb→lt,
}
use polkafoundry.Staking.Types.{Bond}
use polkafoundry.Staking.Search.Sound.{compare-cases}
use polkafoundry.Staking.Search.{owner_at, search_loop, binary_search}

-- Each round leaves a range with fewer elements.
search_loop-enough :
    (f g : ℕ) (xs : List Bond) (o l r : ℕ)
    → r - l ≤ f
    → r - l ≤ g
    → search_loop f xs o l r ≡ search_loop g xs o l r
unfolding search_loop
search_loop-enough zero zero xs o l r hf hg = refl
search_loop-enough zero (suc g) xs o l r hf hg = ground arith
search_loop-enough (suc f) zero xs o l r hf hg = ground arith
search_loop-enough (suc f) (suc g) xs o l r hf hg = elim (Bool-cases (ltb l r)) [
  | inr t ↦ rw t refl
  | inl t ↦
      let m = l + (r - l) / 2 in
      let lt = ltb→lt l r t in
      elim (compare-cases (owner_at xs m) o) [
        | inl (e, k) ↦ rw (t, e) (search_loop-enough f g xs o (m + 1) r (omega arith) (omega arith))
        | inr (inl (e, k)) ↦ rw (t, e) (search_loop-enough f g xs o l m (omega arith) (omega arith))
        | inr (inr (e, k)) ↦ rw (t, e) refl
      ]
]

-- The search ends within as many rounds as the list has bonds, whatever their order: more rounds do not
-- change its answer.
pub binary_search-enough :
    (f : ℕ) (xs : List Bond) (b : Bond)
    → length xs ≤ f
    → search_loop f xs b.owner 0 (length xs) ≡ binary_search xs b
unfolding binary_search
binary_search-enough f xs b h =
    search_loop-enough f (length xs) xs b.owner 0 (length xs) (omega arith) (omega arith)
