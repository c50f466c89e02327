-- ===== src/Node/Launch/Parts.antt =====
-- What the parts of `start_node_impl` and `start_dev` of node/src/service.rs start, up to their network on.
use mathlib.Core.List.{append_assoc}
use polkafoundry.Base.{
  ℕ, ◌≡◌, arith, Bool, true, false, Option, List, [], ◌∷◌, ◌++◌, none, some, Result, ok, err, ◌>>=◌,
}
use polkafoundry.Node.ChainSpec.{Runtime, Features}
use polkafoundry.Node.Configuration.{Configuration, is_authority}
use polkafoundry.Node.Rpc.{Api}
use polkafoundry.Node.Run.{Sealing, has_command_sink}
use polkafoundry.Node.Partial.{CliError, Builders, PartialComponents, new_partial}
use polkafoundry.Node.Partial.Components.{Complete, new_partial-Complete}
use polkafoundry.Node.Launch.{
  Event, relay_node, network, offchain_workers, tasks, filter_maintenance, transaction_maintenance,
  authorship, collator, full_node, network_started, Launched, LaunchError, Launcher, library_call,
  failing, start, starts, starts_if, interfaces, work, run_node, run_dev, maintain, join,
}
use polkafoundry.Node.Launch.Emits.{
  optional, Emits, Ends, then-Emits, library_call-Emits, start-Emits, starts-Ends, starts_if-Emits,
}

-- The tasks of a node and what comes after them.
abbrev pub at_work : List Event → List Event
at_work es = tasks ∷ filter_maintenance ∷ transaction_maintenance ∷ es

-- All that a node for the relay chain starts, and all that one for development does, before what comes last.
abbrev pub whole_node : Bool → Event → List Event → List Event
whole_node offchain joined last =
    relay_node ∷ network ∷ (optional offchain offchain_workers ++ at_work (joined ∷ last))

abbrev pub whole_dev : Bool → Bool → Sealing → List Event → List Event
whole_dev offchain validator sealing last =
    network
    ∷ (optional offchain offchain_workers
        ++ (optional validator (authorship sealing) ++ at_work last))

abbrev pub joined_as : Bool → ℕ → Event
joined_as true id = collator id
joined_as false id = full_node id

unfailing :
    {W A : Type 0} (q : Result CliError A × W) (s t : Launched W) (a : A)
    → ◌≡◌ {A = Result LaunchError A × Launched W} (failing q.0, record s { libs = q.1 }) (ok a, t)
    → q ≡ (ok a, t.libs)
unfailing (ok b, w) s t a h = ground (arith, h)
unfailing (err e, w) s t a h = absurd (ground (arith, h))

module _ {W : Type 0} (f : Features) (builders : Builders W) (launcher : Launcher W) where
  pub library-Complete :
      (r : Runtime) (c : Configuration) (dev : Bool) (s t : Launched W) (p : PartialComponents)
      → library_call (new_partial builders r c dev) s ≡ (ok p, t)
      → Complete dev c p
  library-Complete r c dev s t p h =
      new_partial-Complete builders r c dev s.libs t.libs p
        (unfailing (new_partial builders r c dev s.libs) s t p h)

  maintain-Emits :
      (dev : Bool) (config : Configuration) (p : PartialComponents)
      → Complete dev config p
      → Emits (filter_maintenance ∷ transaction_maintenance ∷ []) (maintain f builders launcher p)
  unfolding maintain
  maintain-Emits dev config p made =
      rw (made.filters, made.pending)
        (λ s. append_assoc s.events (filter_maintenance ∷ []) (transaction_maintenance ∷ []))

  join-Emits :
      (validator : Bool) (id relay net : ℕ) (p : PartialComponents)
      → Emits (joined_as validator id ∷ []) (join f builders launcher validator id relay net p)
  unfolding join
  join-Emits true id relay net p =
      then-Emits (library_call (launcher.build_consensus p relay net))
        (λ c. start (collator id) (launcher.start_collator id relay c)) [] (collator id ∷ [])
        (collator id ∷ []) (library_call-Emits (launcher.build_consensus p relay net))
        (λ c. start-Emits (collator id) (launcher.start_collator id relay c))
  join-Emits false id relay net p = start-Emits (full_node id) (launcher.start_full_node id relay)

  work-Emits :
      (dev : Bool) (config : Configuration) (p : PartialComponents) (net : ℕ)
      (apis : Option (List Api))
      → Complete dev config p
      → Emits
          (tasks ∷ filter_maintenance ∷ transaction_maintenance ∷ [])
          (work f builders launcher config p net apis)
  unfolding work
  work-Emits dev config p net apis made =
      let m = launcher.spawn_tasks config p net apis in
      then-Emits (start tasks m) (λ _. maintain f builders launcher p) (tasks ∷ [])
        (filter_maintenance ∷ transaction_maintenance ∷ [])
        (filter_maintenance ∷ transaction_maintenance ∷ []) (start-Emits tasks m)
        (λ _. maintain-Emits dev config p made)

  pub run_node-Ends :
      (r : Runtime) (c : Configuration) (id : ℕ) (p : PartialComponents) (relay net : ℕ)
      → Complete false c p
      → let offchain = optional c.offchain_worker offchain_workers in
        let joined = joined_as (is_authority c.role) id in
        Ends
          (offchain ++ at_work (joined ∷ network_started ∷ []))
          (offchain ++ at_work (joined ∷ []))
          (run_node f builders launcher r c id p relay net)
  unfolding run_node
  run_node-Ends r c id p relay net made =
      let authority = is_authority c.role in
      let apis = interfaces f builders launcher authority false (some r) p in
      let offchain = launcher.build_offchain_workers c p net in
      let last = starts network_started (launcher.start_network net) in
      let joining = join f builders launcher authority id relay net p >>= λ _. last in
      let working = work f builders launcher c p net apis >>= λ _. joining in
      then-Emits (starts_if c.offchain_worker offchain_workers offchain) (λ _. working)
        (optional c.offchain_worker offchain_workers) _ _
        (starts_if-Emits c.offchain_worker offchain_workers offchain)
        (λ _.
          then-Emits (work f builders launcher c p net apis) (λ _. joining)
            (tasks ∷ filter_maintenance ∷ transaction_maintenance ∷ []) _ _
            (work-Emits false c p net apis made)
            (λ _.
              then-Emits (join f builders launcher authority id relay net p) (λ _. last)
                (joined_as authority id ∷ []) (network_started ∷ []) []
                (join-Emits authority id relay net p)
                (λ _. starts-Ends network_started (launcher.start_network net))))

  pub run_dev-Ends :
      (c : Configuration) (sealing : Sealing) (validator : Bool) (p : PartialComponents) (net : ℕ)
      → Complete true c p
      → let offchain = optional c.offchain_worker offchain_workers in
        let author = optional validator (authorship sealing) in
        Ends
          (offchain ++ (author ++ at_work (network_started ∷ [])))
          (offchain ++ (author ++ at_work []))
          (run_dev f builders launcher c sealing validator p net)
  unfolding run_dev
  run_dev-Ends c sealing validator p net made =
      let apis =
        interfaces f builders launcher validator (has_command_sink sealing validator) none p in
      let offchain = launcher.build_offchain_workers c p net in
      let author = launcher.spawn (authorship sealing) in
      let last = starts network_started (launcher.start_network net) in
      let working = work f builders launcher c p net apis >>= λ _. last in
      let authoring = starts_if validator (authorship sealing) author >>= λ _. working in
      then-Emits (starts_if c.offchain_worker offchain_workers offchain) (λ _. authoring)
        (optional c.offchain_worker offchain_workers) _ _
        (starts_if-Emits c.offchain_worker offchain_workers offchain)
        (λ _.
          then-Emits (starts_if validator (authorship sealing) author) (λ _. working)
            (optional validator (authorship sealing)) _ _
            (starts_if-Emits validator (authorship sealing) author)
            (λ _.
              then-Emits (work f builders launcher c p net apis) (λ _. last)
                (tasks ∷ filter_maintenance ∷ transaction_maintenance ∷ []) (network_started ∷ [])
                [] (work-Emits true c p net apis made)
                (λ _. starts-Ends network_started (launcher.start_network net))))
