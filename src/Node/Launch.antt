-- ===== src/Node/Launch.antt =====
-- node/src/service.rs: `start_node_impl` and `start_dev`, what they build and spawn and in which order. What
-- libraries build is a parameter; a thing that is only passed on is a number.
pub mod Emits
pub mod Parts
pub mod Order
use polkafoundry.Base.{
  ℕ, Bool, false, true, Option, none, some, List, push, Result, err, ok, Call, ◌>>=◌, ◌>>◌, pure,
  modify,
}
use polkafoundry.Node.ChainSpec.{Runtime, Features}
use polkafoundry.Node.Configuration.{Configuration, is_light, is_authority}
use polkafoundry.Node.Rpc.{Api, create_full}
use polkafoundry.Node.Run.{Sealing, has_command_sink}
use polkafoundry.Node.Service
use polkafoundry.Node.Service.{ServiceError}
use polkafoundry.Node.Partial.{CliError, service, Builders, PartialComponents, new_partial}

-- What has been started.
pub data Event : Type 0 where
  relay_node network offchain_workers tasks : Event
  filter_maintenance transaction_maintenance : Event
  authorship : Sealing → Event
  collator full_node : ℕ → Event
  network_started : Event

-- The state of the libraries, and the events up to now.
pub record Launched (W : Type 0) : Type 0 where
  pub libs : W
  pub events : List Event

-- `panicked` is the `expect` of `start_dev`.
pub data LaunchError : Type 0 where
  panicked : LaunchError
  failed : CliError → LaunchError

-- The library calls that can fail.
pub record Launcher (W : Type 0) : Type 0 where
  pub prepare_node_config : Configuration → Configuration
  pub build_polkadot_full_node : ℕ → ℕ → Option ℕ → Call W CliError ℕ
  pub build_network : Configuration → PartialComponents → Call W CliError ℕ
  pub build_offchain_workers : Configuration → PartialComponents → ℕ → W → W
  pub spawn_tasks :
      Configuration → PartialComponents → ℕ → Option (List Api) → Call W CliError (Unit {0})
  pub spawn : Event → W → W
  pub build_consensus : PartialComponents → ℕ → ℕ → Call W CliError ℕ
  pub start_collator : ℕ → ℕ → ℕ → Call W CliError (Unit {0})
  pub start_full_node : ℕ → ℕ → Call W CliError (Unit {0})
  pub start_network : ℕ → W → W

abbrev pub failing : {A : Type 0} → Result CliError A → Result LaunchError A
failing (ok a) = ok a
failing (err e) = err (failed e)

abbrev pub is_some : {A : Type 0} → Option A → Bool
is_some none = false
is_some (some _) = true

module _ {W : Type 0} where
  -- A library call, and what it has started where it succeeds.
  abbrev pub library_call : {A : Type 0} → Call W CliError A → Call (Launched W) LaunchError A
  library_call m s = let (r, w) = m s.libs in (failing r, record s { libs = w })

  abbrev pub start : {A : Type 0} → Event → Call W CliError A → Call (Launched W) LaunchError A
  start e m = library_call m >>= λ a. modify (λ s. record s { events = push s.events e }) >> pure a

  abbrev pub starts : Event → (W → W) → Call (Launched W) LaunchError (Unit {0})
  starts e g = modify (λ s. record { libs = g s.libs; events = push s.events e })

  abbrev pub starts_if : Bool → Event → (W → W) → Call (Launched W) LaunchError (Unit {0})
  starts_if true e g = starts e g
  starts_if false e g = pure tt

  abbrev pub ensure_full : Bool → Call (Launched W) LaunchError (Unit {0})
  ensure_full true s = (err (failed (service ServiceError.light_client_not_supported)), s)
  ensure_full false s = (ok tt, s)

  -- `o.expect(…)`
  abbrev pub expect : Option ℕ → Call (Launched W) LaunchError ℕ
  expect none s = (err panicked, s)
  expect (some a) s = (ok a, s)

module _ {W : Type 0} (f : Features) (builders : Builders W) (launcher : Launcher W) where
  -- The maintenance tasks, of which each is spawned if its pool is there.
  unfoldable pub maintain : PartialComponents → Call (Launched W) LaunchError (Unit {0})
  maintain p =
      starts_if (is_some p.filter_pool) filter_maintenance (launcher.spawn filter_maintenance)
      >> starts_if (is_some p.pending_transactions) transaction_maintenance
          (launcher.spawn transaction_maintenance)

  -- The collator of an authority, or the full node.
  unfoldable pub join :
      Bool → ℕ → ℕ → ℕ → PartialComponents → Call (Launched W) LaunchError (Unit {0})
  join true id relay net p = do
    parachain_consensus ← library_call (launcher.build_consensus p relay net)
    start (collator id) (launcher.start_collator id relay parachain_consensus)
  join false id relay net p = start (full_node id) (launcher.start_full_node id relay)

  -- The interfaces of a node, for its components.
  unfoldable pub interfaces : Bool → Bool → Option Runtime → PartialComponents → Option (List Api)
  interfaces authority sink runtime p =
      create_full f
        (record {
          is_authority = authority;
          filter_pool = is_some p.filter_pool;
          command_sink = sink;
        })
        runtime

  -- The tasks of a node and the maintenance.
  unfoldable pub work :
      Configuration
      → PartialComponents
      → ℕ
      → Option (List Api)
      → Call (Launched W) LaunchError (Unit {0})
  unfolding maintain
  work config p net apis = start tasks (launcher.spawn_tasks config p net apis) >>= λ _. maintain p

  -- `start_node_impl` from its network on.
  unfoldable pub run_node :
      Runtime
      → Configuration
      → ℕ
      → PartialComponents
      → ℕ
      → ℕ
      → Call (Launched W) LaunchError (Unit {0})
  unfolding interfaces work join
  run_node runtime config id p relay net = do
    starts_if config.offchain_worker offchain_workers (launcher.build_offchain_workers config p net)
    work config p net (interfaces (is_authority config.role) false (some runtime) p)
    join (is_authority config.role) id relay net p
    starts network_started (launcher.start_network net)

  -- `start_node_impl` with its components.
  unfoldable pub build_node :
      Runtime
      → Configuration
      → ℕ
      → ℕ
      → ℕ
      → PartialComponents
      → Call (Launched W) LaunchError (Unit {0})
  unfolding run_node
  build_node runtime config collator_key polkadot_config id p = do
    relay ←
        start relay_node
          (launcher.build_polkadot_full_node polkadot_config collator_key p.telemetry_worker_handle)
    net ← start network (launcher.build_network config p)
    run_node runtime config id p relay net

  unfoldable pub start_node_impl :
      Runtime → Configuration → ℕ → ℕ → ℕ → Call (Launched W) LaunchError (Unit {0})
  unfolding build_node
  start_node_impl runtime config collator_key polkadot_config id = do
    ensure_full (is_light config.role)
    let prepared = launcher.prepare_node_config config
    p ← library_call (new_partial builders runtime prepared false)
    build_node runtime prepared collator_key polkadot_config id p

  -- `start_dev` from its network on.
  unfoldable pub run_dev :
      Configuration
      → Sealing
      → Bool
      → PartialComponents
      → ℕ
      → Call (Launched W) LaunchError (Unit {0})
  unfolding interfaces work
  run_dev config sealing validator p net = do
    starts_if config.offchain_worker offchain_workers (launcher.build_offchain_workers config p net)
    starts_if validator (authorship sealing) (launcher.spawn (authorship sealing))
    work config p net (interfaces validator (has_command_sink sealing validator) none p)
    starts network_started (launcher.start_network net)

  -- `start_dev` with its components.
  unfoldable pub build_dev :
      Configuration → Sealing → Bool → PartialComponents → Call (Launched W) LaunchError (Unit {0})
  unfolding run_dev
  build_dev config sealing validator p = do
    _ ← expect p.select_chain
    net ← start network (launcher.build_network config p)
    run_dev config sealing validator p net

  unfoldable pub start_dev_impl :
      Configuration → Sealing → Bool → Call (Launched W) LaunchError (Unit {0})
  unfolding build_dev
  start_dev_impl config sealing validator =
      library_call (new_partial builders Runtime.halongbay config true)
      >>= build_dev config sealing validator
