-- ===== src/Staking/Bonds/Lookup.antt =====
-- The answers of `binary_search` read as entries of the map from owners to amounts.
use mathlib.Core.Path.{subst}
use polkafoundry.Base.{
  ℕ, zero, suc, ◌<◌, ◌≡◌, ◌≢◌, ◌⊎◌, refl, arith, none, List, [], ◌∷◌, length, inl, inr,
}
use polkafoundry.Staking.Types.{Bond}
use polkafoundry.Staking.Search.{Search, found, missing, owner_at, binary_search, IsSorted, Answers}
use polkafoundry.Staking.Search.Sound.{binary_search-Answers}
use polkafoundry.Staking.Bonds.Stakes.{stake_of}

stake_of_missing :
    (o : ℕ) (bs : List Bond) → ((j : ℕ) → j < length bs → owner_at bs j ≢ o) → stake_of o bs ≡ none
stake_of_missing o [] h = refl
stake_of_missing o (b ∷ bs) h =
    ground (arith, h 0, stake_of_missing o bs (λ j l. h (suc j) (omega arith)))

stake_of_found :
    (o i : ℕ) (bs : List Bond) → i < length bs → owner_at bs i ≡ o → stake_of o bs ≢ none
stake_of_found o i [] h e = absurd (omega arith)
stake_of_found o zero (b ∷ bs) h e = ground arith
stake_of_found o (suc i) (b ∷ bs) h e = ground (arith, stake_of_found o i bs (omega arith) e)

-- What an answer says of the map.
abbrev Reads : List Bond → ℕ → Search → Type 0
Reads bs o (found i) = stake_of o bs ≢ none
Reads bs o (missing i) = stake_of o bs ≡ none

Reads-of_Answers : (bs : List Bond) (o : ℕ) (a : Search) → Answers bs o a → Reads bs o a
Reads-of_Answers bs o (found i) h = stake_of_found o i bs h.0 h.1
Reads-of_Answers bs o (missing i) h = stake_of_missing o bs h

Search-cases : (a : Search) → ((i : ℕ) × (a ≡ found i)) ⊎ ((i : ℕ) × (a ≡ missing i))
Search-cases (found i) = inl (i, refl)
Search-cases (missing i) = inr (i, refl)

binary_search-Reads :
    (bs : List Bond) (b : Bond) → IsSorted bs → Reads bs b.owner (binary_search bs b)
binary_search-Reads bs b s =
    Reads-of_Answers bs b.owner (binary_search bs b) (binary_search-Answers bs b s)

-- Of two bonds that stand in descending order the search misses the first one.
pub binary_search_descending :
    (a b x : Bond)
    → b.owner < a.owner
    → x.owner ≡ a.owner
    → (i : ℕ) × (binary_search (a ∷ b ∷ []) x ≡ missing i)
unfolding binary_search
binary_search_descending a b x h e = (2, ground arith)

-- The two answers on a sorted list, with what they say of the map.
pub binary_search-cases :
    (bs : List Bond) (b : Bond)
    → IsSorted bs
    → ((i : ℕ) × (binary_search bs b ≡ found i) × (stake_of b.owner bs ≢ none))
      ⊎ ((i : ℕ) × (binary_search bs b ≡ missing i) × (stake_of b.owner bs ≡ none))
binary_search-cases bs b s = elim (Search-cases (binary_search bs b)) [
  | inl (i, e) ↦ inl (i, e, subst (Reads bs b.owner) e (binary_search-Reads bs b s))
  | inr (i, e) ↦ inr (i, e, subst (Reads bs b.owner) e (binary_search-Reads bs b s))
]
