-- ===== src/Node/Pools/Lifespan.antt =====
-- How long an item stays in a pool of node/src/service.rs, and a filter in the pool of filters.
use polkafoundry.Base.{
  ℕ, ◌+◌, ◌<◌, ◌≡◌, refl, sym, ap, ◌∙◌, arith, Bool, true, not, ◌&&◌, Option, none, some, List, [],
  ◌∷◌, Map, lookup, erase, lookup-erase, IsDistinct, erase-IsDistinct, ltb, leb, if◌then◌else◌,
  u64_mod, add_u64,
}
use polkafoundry.Node.Pools.{filter_retain_threshold, retain, remove_filters, maintain_filters}

abbrev pub kept : {V : Type 0} → (V → Bool) → Option V → Option V
kept p none = none
kept p (some v) = if p v then some v else none

pub lookup-retain :
    {V : Type 0} (keep : ℕ → V → Bool) (k : ℕ) (m : Map V)
    → IsDistinct m
    → lookup k (retain keep m) ≡ kept (keep k) (lookup k m)
unfolding retain
lookup-retain keep k [] d = refl
lookup-retain keep k ((j, v) ∷ m) d =
    ground (arith, lookup-retain keep k m d.1, lookup-retain keep j m d.1)

pub retain-IsDistinct :
    {V : Type 0} (keep : ℕ → V → Bool) (m : Map V) → IsDistinct m → IsDistinct (retain keep m)
unfolding retain
retain-IsDistinct keep [] d = tt
retain-IsDistinct keep ((j, v) ∷ m) d =
    ground (arith, retain-IsDistinct keep m d.1, lookup-retain keep j m d.1)

pub kept-kept :
    {V : Type 0} (p q : V → Bool) (o : Option V) → kept p (kept q o) ≡ kept (λ v. q v && p v) o
kept-kept p q none = refl
kept-kept p q (some v) = ground arith

pub kept-always : {V : Type 0} (o : Option V) → kept (λ _. true) o ≡ o
kept-always none = refl
kept-always (some v) = refl

pub kept-ext :
    {V : Type 0} (p q : V → Bool) (o : Option V)
    → ((v : V) → o ≡ some v → p v ≡ q v)
    → kept p o ≡ kept q o
kept-ext p q none h = refl
kept-ext p q (some v) h = ground (arith, h v refl)

abbrev pub highest : List ℕ → ℕ
highest [] = 0
highest (n ∷ ns) = let h = highest ns in if ltb h n then n else h

module _ {V : Type 0} (at_block : V → ℕ) where
  -- An item of the filter pool whose lifespan is not over at a block.
  abbrev pub is_fresh_filter : ℕ → V → Bool
  is_fresh_filter n v = not (leb (add_u64 (at_block v) filter_retain_threshold) n)

  -- The loop removes from the pool what is stale in the copy.
  lookup-remove_filters :
      (n k : ℕ) (es m : Map V)
      → IsDistinct es
      → lookup k (remove_filters at_block n es m) ≡ elim (lookup k es) [
        | none ↦ lookup k m
        | some v ↦ (if is_fresh_filter n v then lookup k m else none)
      ]
  unfolding remove_filters
  lookup-remove_filters n k [] m d = refl
  lookup-remove_filters n k ((j, v) ∷ es) m d = ground (
    arith,
    lookup-remove_filters n k es (erase j m) d.1,
    lookup-remove_filters n k es m d.1,
    lookup-erase j k m,
  )

  remove_filters-IsDistinct :
      (n : ℕ) (es m : Map V) → IsDistinct m → IsDistinct (remove_filters at_block n es m)
  unfolding remove_filters
  remove_filters-IsDistinct n [] m d = d
  remove_filters-IsDistinct n ((j, v) ∷ es) m d = ground (
    arith,
    remove_filters-IsDistinct n es (erase j m) (erase-IsDistinct j m d),
    remove_filters-IsDistinct n es m d,
  )

  lookup-maintain_filters :
      (n k : ℕ) (m : Map V)
      → IsDistinct m
      → lookup k (maintain_filters at_block n m) ≡ kept (is_fresh_filter n) (lookup k m)
  unfolding maintain_filters
  lookup-maintain_filters n k m d = ground (arith, lookup-remove_filters n k m m d)

  -- The pool of filters after the blocks with these numbers have been imported, in this order.
  unfoldable pub filters_after : List ℕ → Map V → Map V
  filters_after [] m = m
  filters_after (n ∷ ns) m = filters_after ns (maintain_filters at_block n m)

  -- Is an item fresh at all these blocks?
  unfoldable pub fresh_at_all : List ℕ → V → Bool
  fresh_at_all [] v = true
  fresh_at_all (n ∷ ns) v = is_fresh_filter n v && fresh_at_all ns v

  lookup-filters_after :
      (k : ℕ) (ns : List ℕ) (m : Map V)
      → IsDistinct m
      → lookup k (filters_after ns m) ≡ kept (fresh_at_all ns) (lookup k m)
  unfolding filters_after fresh_at_all maintain_filters
  lookup-filters_after k [] m d = sym (kept-always (lookup k m))
  lookup-filters_after k (n ∷ ns) m d =
      lookup-filters_after k ns (maintain_filters at_block n m) (remove_filters-IsDistinct n m m d)
      ∙ ap (kept (fresh_at_all ns)) (lookup-maintain_filters n k m d)
      ∙ kept-kept (fresh_at_all ns) (is_fresh_filter n) (lookup k m)

  fresh_at_all-highest :
      (ns : List ℕ) (v : V)
      → at_block v + filter_retain_threshold < u64_mod
      → fresh_at_all ns v ≡ ltb (highest ns) (at_block v + filter_retain_threshold)
  unfolding fresh_at_all add_u64
  fresh_at_all-highest [] v h = ground arith
  fresh_at_all-highest (n ∷ ns) v h = ground (arith, fresh_at_all-highest ns v h)

  -- After any blocks have been imported, in any order, a key of the pool of filters still has its filter if
  -- the highest block is less than 100 blocks above the one at which the filter was added, and is gone
  -- otherwise. No key occurs twice in the pool, and the end of the filter's lifespan fits a `u64`.
  pub filters_after-highest :
      (ns : List ℕ) (m : Map V)
      → IsDistinct m
      → (k : ℕ) → ((v : V) → lookup k m ≡ some v → at_block v + filter_retain_threshold < u64_mod)
      → lookup k (filters_after ns m)
        ≡ kept (λ v. ltb (highest ns) (at_block v + filter_retain_threshold)) (lookup k m)
  filters_after-highest ns m d k h =
      lookup-filters_after k ns m d
      ∙ kept-ext (fresh_at_all ns) (λ v. ltb (highest ns) (at_block v + filter_retain_threshold))
          (lookup k m) (λ v e. fresh_at_all-highest ns v (h v e))
