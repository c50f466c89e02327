-- ===== src/Node/Pools/Pending.antt =====
-- How long a transaction stays in the pool of pending transactions of node/src/service.rs.
use polkafoundry.Base.{
  ℕ, ◌+◌, ◌<◌, ◌≡◌, sym, ap, ◌∙◌, arith, Bool, true, not, ◌&&◌, Option, none, some, List, [], ◌∷◌,
  Map, lookup, IsDistinct, ltb, u64_mod, add_u64,
}
use polkafoundry.Node.Pools.{
  transaction_retain_threshold, contains, drop_processed, maintain_transactions,
}
use polkafoundry.Node.Pools.Lifespan.{
  kept, lookup-retain, retain-IsDistinct, kept-kept, kept-always, kept-ext, highest,
}

module _ {V : Type 0} (at_block : V → ℕ) where
  -- The blocks imported one after another: the number of each, and the hashes of its `EndBlock` log.
  abbrev pub Imports : Type 0
  Imports = List (ℕ × Option (List ℕ))

  unfoldable pub transactions_after : Imports → Map V → Map V
  transactions_after [] m = m
  transactions_after ((n, hs) ∷ bs) m =
      transactions_after bs (maintain_transactions at_block n hs m)

  -- The block did not process the transaction.
  abbrev pub is_unprocessed : Option (List ℕ) → ℕ → Bool
  is_unprocessed none k = true
  is_unprocessed (some hs) k = not (contains k hs)

  abbrev pub is_unprocessed_by_all : Imports → ℕ → Bool
  is_unprocessed_by_all [] k = true
  is_unprocessed_by_all ((n, hs) ∷ bs) k = is_unprocessed hs k && is_unprocessed_by_all bs k

  abbrev pub numbers : Imports → List ℕ
  numbers [] = []
  numbers ((n, hs) ∷ bs) = n ∷ numbers bs

  drop_processed-IsDistinct :
      (hs : Option (List ℕ)) (m : Map V) → IsDistinct m → IsDistinct (drop_processed hs m)
  unfolding drop_processed
  drop_processed-IsDistinct none m d = d
  drop_processed-IsDistinct (some hs) m d = retain-IsDistinct (λ k v. not (contains k hs)) m d

  lookup-drop_processed :
      (hs : Option (List ℕ)) (k : ℕ) (m : Map V)
      → IsDistinct m
      → lookup k (drop_processed hs m) ≡ kept (λ v. is_unprocessed hs k) (lookup k m)
  unfolding drop_processed
  lookup-drop_processed none k m d = sym (kept-always (lookup k m))
  lookup-drop_processed (some hs) k m d = lookup-retain (λ k v. not (contains k hs)) k m d

  lookup-maintain_transactions :
      (n : ℕ) (hs : Option (List ℕ)) (k : ℕ) (m : Map V)
      → IsDistinct m
      → IsDistinct (maintain_transactions at_block n hs m)
        × (lookup k (maintain_transactions at_block n hs m)
            ≡ kept
                (λ v.
                  is_unprocessed hs k && ltb n (add_u64 (at_block v) transaction_retain_threshold))
                (lookup k m))
  unfolding maintain_transactions
  lookup-maintain_transactions n hs k m d =
      let in_time : ℕ → V → Bool =
        λ _ v. ltb n (add_u64 (at_block v) transaction_retain_threshold) in
      let dropped = drop_processed-IsDistinct hs m d in
      (
        retain-IsDistinct in_time (drop_processed hs m) dropped,
        lookup-retain in_time k (drop_processed hs m) dropped
            ∙ ap (kept (in_time k)) (lookup-drop_processed hs k m d)
            ∙ kept-kept (in_time k) (λ v. is_unprocessed hs k) (lookup k m),
      )

  -- Does an item stay through all these blocks?
  unfoldable pub stays : ℕ → Imports → V → Bool
  stays k [] v = true
  stays k ((n, hs) ∷ bs) v =
      (is_unprocessed hs k && ltb n (add_u64 (at_block v) transaction_retain_threshold))
      && stays k bs v

  lookup-transactions_after :
      (k : ℕ) (bs : Imports) (m : Map V)
      → IsDistinct m
      → lookup k (transactions_after bs m) ≡ kept (stays k bs) (lookup k m)
  unfolding transactions_after stays
  lookup-transactions_after k [] m d = sym (kept-always (lookup k m))
  lookup-transactions_after k ((n, hs) ∷ bs) m d =
      let step = lookup-maintain_transactions n hs k m d in
      let this : V → Bool =
        λ v. is_unprocessed hs k && ltb n (add_u64 (at_block v) transaction_retain_threshold) in
      lookup-transactions_after k bs (maintain_transactions at_block n hs m) step.0
      ∙ ap (kept (stays k bs)) step.1
      ∙ kept-kept (stays k bs) this (lookup k m)

  stays-highest :
      (k : ℕ) (bs : Imports) (v : V)
      → at_block v + transaction_retain_threshold < u64_mod
      → stays k bs v ≡ (
          is_unprocessed_by_all bs k
          && ltb (highest (numbers bs)) (at_block v + transaction_retain_threshold))
  unfolding stays add_u64
  stays-highest k [] v h = ground arith
  stays-highest k ((n, hs) ∷ bs) v h = ground (arith, stays-highest k bs v h)

  -- After any blocks have been imported, in any order, a hash of the pool of pending transactions still has
  -- its transaction if no block's `EndBlock` log lists the hash and the highest block is less than 5 blocks
  -- above the one at which the transaction was added, and is gone otherwise. No hash occurs twice in the
  -- pool, and the end of the transaction's lifespan fits a `u64`.
  pub transactions_after-highest :
      (bs : Imports) (m : Map V)
      → IsDistinct m
      → (k : ℕ)
      → ((v : V) → lookup k m ≡ some v → at_block v + transaction_retain_threshold < u64_mod)
      → lookup k (transactions_after bs m)
        ≡ kept
            (λ v.
              is_unprocessed_by_all bs k
              && ltb (highest (numbers bs)) (at_block v + transaction_retain_threshold))
            (lookup k m)
  transactions_after-highest bs m d k h =
      lookup-transactions_after k bs m d
      ∙ kept-ext (stays k bs)
          (λ v.
            is_unprocessed_by_all bs k
            && ltb (highest (numbers bs)) (at_block v + transaction_retain_threshold))
          (lookup k m) (λ v e. stays-highest k bs v (h v e))
