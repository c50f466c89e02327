-- ===== src/Staking/Search/Sound.antt =====
-- What the answers of `binary_search` mean on a list in strict order.
use polkafoundry.Base.{
  ℕ, zero, suc, ◌+◌, ◌-◌, ◌/◌, ◌≤◌, ◌<◌, ◌≡◌, ◌⊎◌, arith, List, Ordering, compare, ltb, length, inl,
  inr, Bool-cases, ltb→lt,
}
use polkafoundry.Staking.Types.{Bond}
use polkafoundry.Staking.Search.{missing, owner_at, search_loop, binary_search, IsSorted, Answers}

pub compare-cases :
    (a b : ℕ)
    → ((compare a b ≡ Ordering.lt) × (a < b))
      ⊎ (((compare a b ≡ Ordering.gt) × (b < a)) ⊎ ((compare a b ≡ Ordering.eq) × (a ≡ b)))
compare-cases a b = ground arith

-- The owners before the range are too small, those behind it too large.
record InRange (xs : List Bond) (o left right : ℕ) : Type 0 where
  ends : right ≤ length xs
  below : (j : ℕ) → j < left → owner_at xs j < o
  above : (j : ℕ) → right ≤ j → j < length xs → o < owner_at xs j

InRange-stop : (xs : List Bond) (o l r : ℕ) → InRange xs o l r → r ≤ l → Answers xs o (missing l)
InRange-stop xs o l r v h j k e = elim (Bool-cases (ltb j l)) [
  | inl t ↦ omega (arith, v.below j (ltb→lt j l t))
  | inr t ↦ omega (arith, v.above j (ground arith) k)
]

InRange-low :
    (xs : List Bond) (o l r m : ℕ)
    → IsSorted xs
    → InRange xs o l r
    → m < r
    → owner_at xs m < o
    → InRange xs o (m + 1) r
InRange-low xs o l r m s v h k = record {
  ends = v.ends;
  below = λ j t. elim (Bool-cases (ltb j m)) [
    | inl e ↦ omega (arith, s j m (ltb→lt j m e), v.ends)
    | inr e ↦ let same : j ≡ m = ground arith in rw same k
  ];
  above = v.above;
}

InRange-high :
    (xs : List Bond) (o l r m : ℕ)
    → IsSorted xs
    → InRange xs o l r
    → m < r
    → o < owner_at xs m
    → InRange xs o l m
InRange-high xs o l r m s v h k = record {
  ends = omega (arith, v.ends);
  below = v.below;
  above = λ j t n. elim (Bool-cases (ltb m j)) [
    | inl e ↦ omega (arith, s m j (ltb→lt m j e) n)
    | inr e ↦ let same : j ≡ m = ground arith in rw same k
  ];
}

search_loop-Answers :
    (f : ℕ) (xs : List Bond) (o l r : ℕ)
    → IsSorted xs
    → r - l ≤ f
    → InRange xs o l r
    → Answers xs o (search_loop f xs o l r)
unfolding search_loop
search_loop-Answers zero xs o l r s h v = InRange-stop xs o l r v (omega arith)
search_loop-Answers (suc f) xs o l r s h v = elim (Bool-cases (ltb l r)) [
  | inr t ↦ rw t (InRange-stop xs o l r v (ground arith))
  | inl t ↦
      let m = l + (r - l) / 2 in
      let lt = ltb→lt l r t in
      let inside : m < r = omega arith in
      elim (compare-cases (owner_at xs m) o) [
        | inl (e, k) ↦
            rw (t, e)
              (search_loop-Answers f xs o (m + 1) r s (omega arith)
                (InRange-low xs o l r m s v inside k))
        | inr (inl (e, k)) ↦
            rw (t, e)
              (search_loop-Answers f xs o l m s (omega arith)
                (InRange-high xs o l r m s v inside k))
        | inr (inr (e, k)) ↦ rw (t, e) (omega (arith, v.ends), k)
      ]
]

-- In a list with strictly increasing owners the search answers `found` at an index of that owner, or
-- `missing`, and then no bond of the list has the owner.
pub binary_search-Answers :
    (xs : List Bond) (b : Bond) → IsSorted xs → Answers xs b.owner (binary_search xs b)
unfolding binary_search
binary_search-Answers xs b s =
    search_loop-Answers (length xs) xs b.owner 0 (length xs) s (omega arith) (record {
      ends = omega arith;
      below = λ j t. absurd (omega arith);
      above = λ j t n. absurd (omega arith);
    })
