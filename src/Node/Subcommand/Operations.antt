-- ===== src/Node/Subcommand/Operations.antt =====
-- Which client the chain operations of node/src/command.rs work on.
use polkafoundry.Base.{ℕ, ◌≡◌, ◌∙◌, ap, none, some, ok, err, Call, ◌>>=◌, bind_ok, bind_pure, pure}
use polkafoundry.Node.ChainSpec.{Runtime, Features}
use polkafoundry.Node.Configuration.{Configuration}
use polkafoundry.Node.Client.{FullClient, operations, wrap}
use polkafoundry.Node.Client.Wraps.{operations-wrap}
use polkafoundry.Node.Service.{ServiceError}
use polkafoundry.Node.Service.Variant.{develops, chosen_client-native, chosen_client-none}
use polkafoundry.Node.Command.{Files, native_runtime_version}
use polkafoundry.Node.Partial.{
  CliError, service, Builders, PartialComponents, Parts, new_partial, in_memory_keystore, parts_of,
  new_chain_ops,
}
use polkafoundry.Node.Subcommand.{
  Subcommand, check_block, export_blocks, export_state, import_blocks, revert, Commands,
  run_subcommand,
}

-- A subcommand that works on the chain through a client, with its options.
pub data ChainOperation : Subcommand → ℕ → Type 0 where
  checks : (cmd : ℕ) → ChainOperation (check_block cmd) cmd
  exports_blocks : (cmd : ℕ) → ChainOperation (export_blocks cmd) cmd
  exports_state : (cmd : ℕ) → ChainOperation (export_state cmd) cmd
  imports : (cmd : ℕ) → ChainOperation (import_blocks cmd) cmd
  reverts : (cmd : ℕ) → ChainOperation (revert cmd) cmd

-- What such a subcommand asks of the library, given the components of a node.
abbrev pub perform :
    {W : Type 0}
    → Commands W
    → Subcommand
    → Configuration
    → PartialComponents
    → Call W CliError (Unit {0})
perform commands (check_block cmd) config p = commands.check_block cmd p.client p.import_queue
perform commands (export_blocks cmd) config p = commands.export_blocks cmd p.client config.database
perform commands (export_state cmd) config p = commands.export_state cmd p.client config.chain_spec
perform commands (import_blocks cmd) config p = commands.import_blocks cmd p.client p.import_queue
perform commands (revert cmd) config p = commands.revert cmd p.client p.backend
perform commands _ config p = pure tt

module _ {W : Type 0} (f : Features) (libs : Builders W) where
  -- What an arm does once there is a configuration: the components of a node are built, and the command is
  -- given the operations of their client, the backend and the import queue.
  abbrev built :
      (FullClient → ℕ → ℕ → Call W CliError (Unit {0})) → Parts → Call W CliError (Unit {0})
  built k x = k (operations x.0) x.1 x.2

  new_chain_ops-native :
      (config : Configuration) (k : FullClient → ℕ → ℕ → Call W CliError (Unit {0})) (r : Runtime)
      (v : W)
      → native_runtime_version f config.chain_spec ≡ some r
      → (new_chain_ops f libs config >>= built k) v
        ≡ (new_partial libs r (in_memory_keystore config) (develops r) >>= λ p.
              k p.client p.backend p.import_queue)
            v
  unfolding new_chain_ops parts_of
  new_chain_ops-native config k r v h =
      let m = new_partial libs r (in_memory_keystore config) (develops r) in
      ap (λ c. (parts_of libs (in_memory_keystore config) c >>= built k) v)
        (chosen_client-native f config.chain_spec r h)
      ∙ bind_pure m (λ p. (wrap r p.client, p.backend, p.import_queue, p.task_manager)) (built k) v
      ∙ λ i. (m >>= λ p. k (operations-wrap r p.client i) p.backend p.import_queue) v

  new_chain_ops-none :
      (config : Configuration) (k : Parts → Call W CliError (Unit {0})) (v : W)
      → native_runtime_version f config.chain_spec ≡ none
      → (e : ServiceError) × ((new_chain_ops f libs config >>= k) v ≡ (err (service e), v))
  unfolding new_chain_ops parts_of
  new_chain_ops-none config k v h =
      let (e, failed) = chosen_client-none f config.chain_spec h in
      (e, ap (λ c. (parts_of libs (in_memory_keystore config) c >>= k) v) failed)

  arm_native :
      (create : Call W CliError Configuration)
      (k : Configuration → FullClient → ℕ → ℕ → Call W CliError (Unit {0})) (config : Configuration)
      (w v : W)
      → create w ≡ (ok config, v)
      → let arm = λ (c : Configuration). new_chain_ops f libs c >>= built (k c) in
        ((r : Runtime)
          → native_runtime_version f config.chain_spec ≡ some r
          → (create >>= arm) w
            ≡ (new_partial libs r (in_memory_keystore config) (develops r) >>= λ p.
                  k config p.client p.backend p.import_queue)
                v)
        × (native_runtime_version f config.chain_spec ≡ none
            → (e : ServiceError) × ((create >>= arm) w ≡ (err (service e), v)))
  arm_native create k config w v hc =
      let arm = λ (c : Configuration). new_chain_ops f libs c >>= built (k c) in
      let ran = bind_ok create arm w v config hc in
      (
        λ r h. ran ∙ new_chain_ops-native config (k config) r v h,
        λ h.
            let (e, failed) = new_chain_ops-none config (built (k config)) v h in (e, ran ∙ failed),
      )

module _ {W : Type 0} (commands : Commands W) (f : Features) (files : Files)
    (libs : Builders W) where
  -- `check-block`, `export-blocks`, `export-state`, `import-blocks` and `revert` work on the components of
  -- the runtime whose version is reported for the specification that their options lead to, built with
  -- the keystore in memory, and for development if that is Halongbay: the library's command gets the
  -- full client of that runtime, whatever wraps it, and the other component or setting that it needs. If
  -- asking for the version panics, they fail, with nothing done after the options were read.
  pub run_subcommand-native :
      (s : Subcommand) (cmd : ℕ) (config : Configuration) (w v : W)
      → ChainOperation s cmd
      → commands.create_runner cmd w ≡ (ok config, v)
      → ((r : Runtime)
          → native_runtime_version f config.chain_spec ≡ some r
          → run_subcommand commands f files libs s w
            ≡ (new_partial libs r (in_memory_keystore config) (develops r)
                  >>= perform commands s config)
                v)
        × (native_runtime_version f config.chain_spec ≡ none
            → (e : ServiceError) × (run_subcommand commands f files libs s w
                ≡ (err (service e), v)))
  unfolding run_subcommand
  run_subcommand-native s cmd config w v (checks _) hc =
      arm_native f libs (commands.create_runner cmd) (λ config c b q. commands.check_block cmd c q)
        config w v hc
  run_subcommand-native s cmd config w v (exports_blocks _) hc =
      arm_native f libs (commands.create_runner cmd)
        (λ config c b q. commands.export_blocks cmd c config.database) config w v hc
  run_subcommand-native s cmd config w v (exports_state _) hc =
      arm_native f libs (commands.create_runner cmd)
        (λ config c b q. commands.export_state cmd c config.chain_spec) config w v hc
  run_subcommand-native s cmd config w v (imports _) hc =
      arm_native f libs (commands.create_runner cmd)
        (λ config c b q. commands.import_blocks cmd c q) config w v hc
  run_subcommand-native s cmd config w v (reverts _) hc =
      arm_native f libs (commands.create_runner cmd) (λ config c b q. commands.revert cmd c b)
        config w v hc
