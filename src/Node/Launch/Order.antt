-- ===== src/Node/Launch/Order.antt =====
-- What has been started when `start_node_impl` or `start_dev` of node/src/service.rs ends.
use polkafoundry.Base.{ℕ, Bool, true, false, [], ◌∷◌, ◌>>=◌}
use polkafoundry.Node.ChainSpec.{Runtime, Features}
use polkafoundry.Node.Configuration.{Configuration, is_light, is_authority}
use polkafoundry.Node.Run.{Sealing}
use polkafoundry.Node.Partial.{Builders, PartialComponents, new_partial}
use polkafoundry.Node.Partial.Components.{Complete}
use polkafoundry.Node.Launch.{
  relay_node, network, network_started, Launched, Launcher, library_call, ensure_full, expect,
  start, run_node, run_dev, build_node, build_dev, start_node_impl, start_dev_impl,
}
use polkafoundry.Node.Launch.Emits.{
  Ends, Done, bind-Emits, then-Emits, library_call-Emits, start-Emits, ensure_full-Emits,
  expect-Emits,
}
use polkafoundry.Node.Launch.Parts.{
  whole_node, whole_dev, joined_as, library-Complete, run_node-Ends, run_dev-Ends,
}

module _ {W : Type 0} (f : Features) (builders : Builders W) (launcher : Launcher W) where
  build_node-Ends :
      (r : Runtime) (c : Configuration) (key relay id : ℕ) (p : PartialComponents)
      → Complete false c p
      → let joined = joined_as (is_authority c.role) id in
        Ends
          (whole_node c.offchain_worker joined (network_started ∷ []))
          (whole_node c.offchain_worker joined [])
          (build_node f builders launcher r c key relay id p)
  unfolding build_node
  build_node-Ends r c key relay id p made =
      let full = launcher.build_polkadot_full_node relay key p.telemetry_worker_handle in
      let net = launcher.build_network c p in
      let run = λ (full net : ℕ). run_node f builders launcher r c id p full net in
      then-Emits (start relay_node full) (λ full. start network net >>= run full) (relay_node ∷ [])
        _ _ (start-Emits relay_node full)
        (λ full.
          then-Emits (start network net) (run full) (network ∷ []) _ _ (start-Emits network net)
            (λ net. run_node-Ends f builders launcher r c id p full net made))

  start_node_impl-Ends :
      (r : Runtime) (config : Configuration) (key relay id : ℕ)
      → let c = launcher.prepare_node_config config in
        let joined = joined_as (is_authority c.role) id in
        Ends
          (whole_node c.offchain_worker joined (network_started ∷ []))
          (whole_node c.offchain_worker joined [])
          (start_node_impl f builders launcher r config key relay id)
  unfolding start_node_impl
  start_node_impl-Ends r config key relay id =
      let c = launcher.prepare_node_config config in
      let parts = library_call (new_partial builders r c false) in
      let build = build_node f builders launcher r c key relay id in
      then-Emits (ensure_full (is_light config.role)) (λ _. parts >>= build) [] _ _
        (ensure_full-Emits (is_light config.role))
        (λ _.
          bind-Emits (Complete false c) parts build [] _ _
            (library_call-Emits (new_partial builders r c false))
            (λ s t p h. library-Complete f builders launcher r c false s t p h)
            (λ p made. build_node-Ends r c key relay id p made))

  build_dev-Ends :
      (c : Configuration) (sealing : Sealing) (validator : Bool) (p : PartialComponents)
      → Complete true c p
      → Ends
          (whole_dev c.offchain_worker validator sealing (network_started ∷ []))
          (whole_dev c.offchain_worker validator sealing [])
          (build_dev f builders launcher c sealing validator p)
  unfolding build_dev
  build_dev-Ends c sealing validator p made =
      let net = launcher.build_network c p in
      let run = run_dev f builders launcher c sealing validator p in
      then-Emits (expect p.select_chain) (λ _. start network net >>= run) [] _ _
        (expect-Emits p.select_chain made.selects)
        (λ _.
          then-Emits (start network net) run (network ∷ []) _ _ (start-Emits network net)
            (λ net. run_dev-Ends f builders launcher c sealing validator p net made))

  start_dev_impl-Ends :
      (c : Configuration) (sealing : Sealing) (validator : Bool)
      → Ends
          (whole_dev c.offchain_worker validator sealing (network_started ∷ []))
          (whole_dev c.offchain_worker validator sealing [])
          (start_dev_impl f builders launcher c sealing validator)
  unfolding start_dev_impl
  start_dev_impl-Ends c sealing validator =
      bind-Emits (Complete true c) (library_call (new_partial builders Runtime.halongbay c true))
        (build_dev f builders launcher c sealing validator) [] _ _
        (library_call-Emits (new_partial builders Runtime.halongbay c true))
        (λ s t p h. library-Complete f builders launcher Runtime.halongbay c true s t p h)
        (λ p made. build_dev-Ends c sealing validator p made)

  -- `start_node_impl` starts, in this order, the relay chain's node, the network service, the offchain workers
  -- if they are enabled, the tasks, the maintenance of the filters and of the pending transactions, the
  -- collator of its parachain if its role is an authority's or else a full node, and at last the network.
  -- `start_dev` starts the network service, the offchain workers if they are enabled, the author of blocks if
  -- it is a validator, the tasks, both maintenance tasks, and at last the network. If one of them fails, by
  -- whatever library call, it has started the first few of these and not the network; neither panics for
  -- want of a rule to select a chain.
  pub start_node_impl-start_dev_impl :
      (r : Runtime) (config : Configuration) (key relay id : ℕ) (sealing : Sealing)
      (validator : Bool) (s : Launched W)
      → let c = launcher.prepare_node_config config in
        let joined = joined_as (is_authority c.role) id in
        Done
          (whole_node c.offchain_worker joined (network_started ∷ []))
          (whole_node c.offchain_worker joined [])
          s.events
          (start_node_impl f builders launcher r config key relay id s)
        × Done
            (whole_dev config.offchain_worker validator sealing (network_started ∷ []))
            (whole_dev config.offchain_worker validator sealing [])
            s.events
            (start_dev_impl f builders launcher config sealing validator s)
  start_node_impl-start_dev_impl r config key relay id sealing validator s =
      (start_node_impl-Ends r config key relay id s, start_dev_impl-Ends config sealing validator s)
