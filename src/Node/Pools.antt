-- ===== src/Node/Pools.antt =====
-- The maintenance of two pools of the Ethereum RPC, once for each imported block: the tasks
-- `frontier-filter-pool` and `frontier-pending-transactions` that `start_node_impl` and `start_dev` of
-- node/src/service.rs spawn. What a pool holds is any type with the block at which an item was added (a
-- `u64`), and the consensus logs of a digest are read by a parameter.
pub mod Lifespan
pub mod Pending
pub mod Logs
use polkafoundry.Base.{
  ℕ, Bool, true, false, not, Option, none, some, List, [], ◌∷◌, ◌++◌, Map, erase, ltb, leb, ◌==◌,
  add_u64, if◌then◌else◌,
}

abbrev pub filter_retain_threshold : ℕ
filter_retain_threshold = 100

abbrev pub transaction_retain_threshold : ℕ
transaction_retain_threshold = 5

-- `HashMap::retain`
unfoldable pub retain : {V : Type 0} → (ℕ → V → Bool) → Map V → Map V
retain keep [] = []
retain keep ((k, v) ∷ m) = let rest = retain keep m in if keep k v then (k, v) ∷ rest else rest

module _ {V : Type 0} (at_block : V → ℕ) where
  -- The loop over a copy of the filter pool.
  unfoldable pub remove_filters : ℕ → Map V → Map V → Map V
  remove_filters imported_number [] locked = locked
  remove_filters imported_number ((k, v) ∷ rest) locked =
      let lifespan_limit = add_u64 (at_block v) filter_retain_threshold in
      remove_filters imported_number rest
        (if leb lifespan_limit imported_number then erase k locked else locked)

  unfoldable pub maintain_filters : ℕ → Map V → Map V
  unfolding remove_filters
  maintain_filters imported_number locked = remove_filters imported_number locked locked

abbrev pub contains : ℕ → List ℕ → Bool
contains k [] = false
contains k (h ∷ hs) = if h == k then true else contains k hs

-- `frontier_log`: the logs of a digest that are read as a consensus log, the later over the earlier.
module _ {Log C : Type 0} (try_to : Log → Option C) where
  unfoldable pub frontier_log : Option C → List Log → Option C
  frontier_log found [] = found
  frontier_log found (l ∷ logs) =
      frontier_log (elim (try_to l) [ none ↦ found | some c ↦ some c ]) logs

-- `digest.logs.iter().rev()`
abbrev pub reversed : {A : Type 0} → List A → List A
reversed [] = []
reversed (x ∷ xs) = reversed xs ++ x ∷ []

-- The first `retain`, with the hashes of the transactions of the block's `EndBlock` log, if any.
unfoldable pub drop_processed : {V : Type 0} → Option (List ℕ) → Map V → Map V
unfolding retain
drop_processed none locked = locked
drop_processed (some transaction_hashes) locked =
    retain (λ k v. not (contains k transaction_hashes)) locked

module _ {V : Type 0} (at_block : V → ℕ) where
  unfoldable pub maintain_transactions : ℕ → Option (List ℕ) → Map V → Map V
  unfolding retain drop_processed
  maintain_transactions imported_number end_block locked =
      retain (λ k v. ltb imported_number (add_u64 (at_block v) transaction_retain_threshold))
        (drop_processed end_block locked)

-- The hashes of an `EndBlock` log.
module _ {C : Type 0} (end_block : C → Option (List ℕ)) where
  abbrev pub hashes_of : Option C → Option (List ℕ)
  hashes_of none = none
  hashes_of (some c) = end_block c

-- The maintenance of pending transactions at a block: `start_node_impl` walks the logs of the digest
-- forwards, `start_dev` backwards. `end_block` gives the hashes of an `EndBlock` log.
module _ {V Log C : Type 0} (at_block : V → ℕ) (try_to : Log → Option C)
    (end_block : C → Option (List ℕ)) where
  unfoldable pub on_block : ℕ → List Log → Map V → Map V
  unfolding maintain_transactions frontier_log
  on_block number logs locked =
      maintain_transactions at_block number (hashes_of end_block (frontier_log try_to none logs))
        locked

  unfoldable pub on_dev_block : ℕ → List Log → Map V → Map V
  unfolding maintain_transactions frontier_log
  on_dev_block number logs locked =
      maintain_transactions at_block number
        (hashes_of end_block (frontier_log try_to none (reversed logs))) locked
