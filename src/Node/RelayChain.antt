-- ===== src/Node/RelayChain.antt =====
-- `RelayChainCli` of node/src/cli.rs and node/src/command.rs: the options of the relay chain's node that a
-- node for a parachain runs. What the library answers for the options after `--` is a record, of which
-- this type keeps all but the chain, the base path and `init`. A value that is only passed on is a number.
pub mod Passes
use polkafoundry.Base.{ℕ, Bool, Option, none, some, List, [], ◌∷◌, Result, ok, err, codes}
use polkafoundry.Node.ChainSpec.{Extensions}
use polkafoundry.Node.Configuration.{Configuration}

pub record SharedParams : Type 0 where
  pub base_path : Option (List ℕ)
  pub others : ℕ

-- The answers of `CliConfiguration`; an error is a number. `init` is `none` where it panics.
pub record CliConfiguration : Type 0 where
  pub shared_params : SharedParams
  pub import_params : Option ℕ
  pub network_params : Option ℕ
  pub keystore_params : Option ℕ
  pub base_path : Result ℕ (Option (List ℕ))
  pub rpc_http : ℕ → Result ℕ (Option ℕ)
  pub rpc_ipc : Result ℕ (Option ℕ)
  pub rpc_ws : ℕ → Result ℕ (Option ℕ)
  pub prometheus_config : ℕ → Result ℕ (Option ℕ)
  pub init : Option (Result ℕ (Unit {0}))
  pub chain_id : Bool → Result ℕ (List ℕ)
  pub role : Bool → Result ℕ ℕ
  pub transaction_pool : Result ℕ ℕ
  pub state_cache_child_ratio : Result ℕ (Option ℕ)
  pub rpc_methods : Result ℕ ℕ
  pub rpc_ws_max_connections : Result ℕ (Option ℕ)
  pub rpc_cors : Bool → Result ℕ (Option (List ℕ))
  pub telemetry_external_transport : Result ℕ (Option ℕ)
  pub default_heap_pages : Result ℕ (Option ℕ)
  pub force_authoring : Result ℕ Bool
  pub disable_grandpa : Result ℕ Bool
  pub max_runtime_instances : Result ℕ (Option ℕ)
  pub announce_block : Result ℕ Bool

-- `base` stands for what `polkadot_cli::RunCmd` answers.
pub record RelayChainCli : Type 0 where
  pub base : CliConfiguration
  pub chain_id : Option (List ℕ)
  pub base_path : Option (List ℕ)

-- `RelayChainCli::new`; the arguments go to the parser of the library.
unfoldable pub new :
    (List (List ℕ) → CliConfiguration)
    → Option (List ℕ)
    → Option (List ℕ)
    → List (List ℕ)
    → RelayChainCli
new from_iter base_path chain_id relay_chain_args = record {
  base = from_iter relay_chain_args;
  chain_id = chain_id;
  base_path = base_path;
}

pub record DefaultConfigurationValues : Type 0 where
  pub p2p_listen_port : ℕ
  pub rpc_ws_listen_port : ℕ
  pub rpc_http_listen_port : ℕ
  pub prometheus_listen_port : ℕ

unfoldable pub default_ports : DefaultConfigurationValues
default_ports = record {
  p2p_listen_port = 30334;
  rpc_ws_listen_port = 9945;
  rpc_http_listen_port = 9934;
  prometheus_listen_port = 9616;
}

-- `Option::or_else`
unfoldable pub or_else : Option (List ℕ) → Option (List ℕ) → Option (List ℕ)
or_else none b = b
or_else (some a) b = some a

unfoldable pub unwrap_or_default : Option (List ℕ) → List ℕ
unwrap_or_default none = []
unwrap_or_default (some a) = a

-- The chain in place of an empty one.
unfoldable pub chain_or : Option (List ℕ) → Result ℕ (List ℕ) → Result ℕ (List ℕ)
unfolding unwrap_or_default
chain_or own (err e) = err e
chain_or own (ok []) = ok (unwrap_or_default own)
chain_or own (ok (c ∷ id)) = ok (c ∷ id)

-- `CliConfiguration for RelayChainCli`
unfoldable pub configuration_of : RelayChainCli → CliConfiguration
unfolding or_else chain_or
configuration_of cli = record {
  shared_params = cli.base.shared_params;
  import_params = cli.base.import_params;
  network_params = cli.base.network_params;
  keystore_params = cli.base.keystore_params;
  base_path = ok (or_else cli.base.shared_params.base_path cli.base_path);
  rpc_http = λ default_listen_port. cli.base.rpc_http default_listen_port;
  rpc_ipc = cli.base.rpc_ipc;
  rpc_ws = λ default_listen_port. cli.base.rpc_ws default_listen_port;
  prometheus_config = λ default_listen_port. cli.base.prometheus_config default_listen_port;
  init = none;
  chain_id = λ is_dev. chain_or cli.chain_id (cli.base.chain_id is_dev);
  role = λ is_dev. cli.base.role is_dev;
  transaction_pool = cli.base.transaction_pool;
  state_cache_child_ratio = cli.base.state_cache_child_ratio;
  rpc_methods = cli.base.rpc_methods;
  rpc_ws_max_connections = cli.base.rpc_ws_max_connections;
  rpc_cors = λ is_dev. cli.base.rpc_cors is_dev;
  telemetry_external_transport = cli.base.telemetry_external_transport;
  default_heap_pages = cli.base.default_heap_pages;
  force_authoring = cli.base.force_authoring;
  disable_grandpa = cli.base.disable_grandpa;
  max_runtime_instances = cli.base.max_runtime_instances;
  announce_block = cli.base.announce_block;
}

abbrev pub relay_chain_of : Option Extensions → Option (List ℕ)
relay_chain_of none = none
relay_chain_of (some e) = some e.relay_chain

abbrev pub joined : (List ℕ → List ℕ → List ℕ) → Option (List ℕ) → Option (List ℕ)
joined join none = none
joined join (some path) = some (join path (codes "polkadot"))

-- `polkadot_cli` in `run`: `join` is that of paths and `executable` the name of the program.
unfoldable pub polkadot_cli :
    (List (List ℕ) → CliConfiguration)
    → (List ℕ → List ℕ → List ℕ)
    → List ℕ
    → Configuration
    → List (List ℕ)
    → RelayChainCli
unfolding new
polkadot_cli from_iter join executable config relaychain_args =
    new from_iter (joined join config.base_path) (relay_chain_of config.chain_spec.extensions)
      (executable ∷ relaychain_args)
