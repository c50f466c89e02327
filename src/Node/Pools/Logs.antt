-- ===== src/Node/Pools/Logs.antt =====
-- The two readings of the logs of a digest in node/src/service.rs.
use polkafoundry.Base.{
  ℕ, ◌≤◌, ◌≡◌, refl, sym, ap, ◌∙◌, arith, Option, none, some, List, [], ◌∷◌, ◌++◌, Map, length,
  Option-cases, inl, inr,
}
use polkafoundry.Node.Pools.{
  frontier_log, reversed, maintain_transactions, hashes_of, on_block, on_dev_block,
}

abbrev pub first_of : {A : Type 0} → List A → Option A
first_of [] = none
first_of (x ∷ xs) = some x

abbrev pub last_of : {A : Type 0} → Option A → List A → Option A
last_of o [] = o
last_of o (x ∷ xs) = last_of (some x) xs

last_of-append :
    {A : Type 0} (o : Option A) (xs : List A) (x : A) → last_of o (xs ++ x ∷ []) ≡ some x
last_of-append o [] x = refl
last_of-append o (y ∷ xs) x = last_of-append (some y) xs x

append_nil : {A : Type 0} (xs : List A) → xs ++ [] ≡ xs
append_nil [] = refl
append_nil (x ∷ xs) = ap (λ ys. x ∷ ys) (append_nil xs)

module _ {Log C : Type 0} (try_to : Log → Option C) where
  -- The consensus logs among the logs, in their order.
  unfoldable pub consensus_logs : List Log → List C
  consensus_logs [] = []
  consensus_logs (l ∷ logs) =
      let rest = consensus_logs logs in elim (try_to l) [ none ↦ rest | some c ↦ c ∷ rest ]

  frontier_log-last_of :
      (found : Option C) (logs : List Log)
      → frontier_log try_to found logs ≡ last_of found (consensus_logs logs)
  unfolding frontier_log consensus_logs
  frontier_log-last_of found [] = refl
  frontier_log-last_of found (l ∷ logs) = elim (Option-cases (try_to l)) [
    | inl e ↦ ground (arith, e, frontier_log-last_of found logs)
    | inr (c, e) ↦ ground (arith, e, frontier_log-last_of (some c) logs)
  ]

  consensus_logs-append :
      (xs ys : List Log) → consensus_logs (xs ++ ys) ≡ consensus_logs xs ++ consensus_logs ys
  unfolding consensus_logs
  consensus_logs-append [] ys = refl
  consensus_logs-append (l ∷ xs) ys = ground (arith, consensus_logs-append xs ys)

  consensus_logs-reversed :
      (logs : List Log) → consensus_logs (reversed logs) ≡ reversed (consensus_logs logs)
  unfolding consensus_logs
  consensus_logs-reversed [] = refl
  consensus_logs-reversed (l ∷ logs) = ground (
    arith,
    consensus_logs-append (reversed logs) (l ∷ []),
    consensus_logs-reversed logs,
    append_nil (consensus_logs (reversed logs)),
  )

last_of-reversed : {A : Type 0} (xs : List A) → last_of none (reversed xs) ≡ first_of xs
last_of-reversed [] = refl
last_of-reversed (x ∷ xs) = last_of-append none (reversed xs) x

single-ends : {A : Type 0} (xs : List A) → length xs ≤ 1 → first_of xs ≡ last_of none xs
single-ends [] h = refl
single-ends (x ∷ []) h = refl
single-ends (x ∷ y ∷ xs) h = absurd (omega arith)

module _ {V Log C : Type 0} (at_block : V → ℕ) (try_to : Log → Option C)
    (end_block : C → Option (List ℕ)) where
  -- The pending transactions of a block are maintained by the last consensus log of its digest in a node
  -- for the relay chain, by the first in the development node; the two nodes do the same to the pool if
  -- the digest has at most one consensus log.
  pub on_block-on_dev_block :
      (number : ℕ) (logs : List Log) (m : Map V)
      → (on_block at_block try_to end_block number logs m
          ≡ maintain_transactions at_block number
              (hashes_of end_block (last_of none (consensus_logs try_to logs)))
              m)
        × (on_dev_block at_block try_to end_block number logs m
            ≡ maintain_transactions at_block number
                (hashes_of end_block (first_of (consensus_logs try_to logs)))
                m)
        × (length (consensus_logs try_to logs) ≤ 1
            → on_block at_block try_to end_block number logs m
              ≡ on_dev_block at_block try_to end_block number logs m)
  unfolding on_block on_dev_block
  on_block-on_dev_block number logs m =
      let maintain : Option C → Map V =
        λ o. maintain_transactions at_block number (hashes_of end_block o) m in
      let forwards = frontier_log-last_of try_to none logs in
      let backwards : frontier_log try_to none (reversed logs)
          ≡ first_of (consensus_logs try_to logs) =
        frontier_log-last_of try_to none (reversed logs)
        ∙ ap (last_of none) (consensus_logs-reversed try_to logs)
        ∙ last_of-reversed (consensus_logs try_to logs) in
      (
        ap maintain forwards,
        ap maintain backwards,
        λ h.
            ap maintain
              (forwards ∙ sym (single-ends (consensus_logs try_to logs) h) ∙ sym backwards),
      )
