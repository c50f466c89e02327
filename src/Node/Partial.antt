-- ===== src/Node/Partial.antt =====
-- node/src/service.rs: `new_partial`, the parts of a node that every use of it shares, and the parts that
-- `new_chain_ops` takes of them. What libraries build is a parameter; a thing that is only passed on is a
-- number. The state `W` is that of the libraries.
pub mod Components
use polkafoundry.Base.{
  ℕ, Bool, Option, none, some, List, [], Result, ok, err, Call, ◌>>=◌, ◌>>◌, pure, modify,
  if◌then◌else◌,
}
use polkafoundry.Node.ChainSpec.{Runtime, Features, SpecError}
use polkafoundry.Node.Configuration.{Keystore, Configuration, is_authority}
use polkafoundry.Node.Client.{FullClient, Client, wrap}
use polkafoundry.Node.Service
use polkafoundry.Node.Service.{ServiceError, chosen_client}

pub data CliError : Type 0 where
  service : ServiceError → CliError
  spec : SpecError → CliError
  no_wasm : CliError
  library : ℕ → CliError

pub record FullParts : Type 0 where
  pub client : FullClient
  pub backend : ℕ
  pub keystore_container : ℕ
  pub task_manager : ℕ

-- What the libraries build.
pub record Builders (W : Type 0) : Type 0 where
  pub telemetry_worker : ℕ → Call W CliError ℕ
  pub worker_handle : ℕ → ℕ
  pub new_telemetry : ℕ → List ℕ → ℕ
  pub spawn : ℕ → ℕ → W → W
  pub new_full_parts : Runtime → Configuration → Option ℕ → Call W CliError FullParts
  pub transaction_pool : ℕ → Bool → ℕ → FullClient → W → ℕ × W
  pub slot_duration : FullClient → Call W CliError ℕ
  pub longest_chain : ℕ → ℕ
  pub manual_seal_import_queue : FullClient → ℕ → W → ℕ × W
  pub aura_import_queue : FullClient → ℕ → ℕ → Option ℕ → Call W CliError ℕ

-- A library's function that cannot fail.
abbrev pub always : {W A : Type 0} → (W → A × W) → Call W CliError A
always g w = let (a, v) = g w in (ok a, v)

-- The pools start empty, and a full node has both.
pub record PartialComponents : Type 0 where
  pub client : FullClient
  pub backend : ℕ
  pub import_queue : ℕ
  pub keystore_container : ℕ
  pub task_manager : ℕ
  pub transaction_pool : ℕ
  pub select_chain : Option ℕ
  pub pending_transactions : Option (List (ℕ × ℕ))
  pub filter_pool : Option (List (ℕ × ℕ))
  pub telemetry : Option ℕ
  pub telemetry_worker_handle : Option ℕ

unfoldable pub is_empty : List ℕ → Bool
is_empty [] = Bool.true
is_empty _ = Bool.false

-- `telemetry_endpoints.filter(|x| !x.is_empty())`
unfoldable pub endpoints_of : Option (List ℕ) → Option (List ℕ)
unfolding is_empty
endpoints_of none = none
endpoints_of (some x) = if is_empty x then none else some x

module _ {W : Type 0} (libs : Builders W) where
  -- A telemetry worker and the telemetry it serves, where there is an endpoint.
  unfoldable pub start_telemetry : Option (List ℕ) → Call W CliError (Option (ℕ × ℕ))
  start_telemetry none = pure none
  start_telemetry (some endpoints) = libs.telemetry_worker 16 >>= λ worker.
      pure (some (worker, libs.new_telemetry (libs.worker_handle worker) endpoints))

  unfoldable pub spawn_worker : ℕ → Option (ℕ × ℕ) → Call W CliError (Option ℕ)
  spawn_worker task_manager none = pure none
  spawn_worker task_manager (some (worker, telemetry)) =
      modify (libs.spawn task_manager worker) >> pure (some telemetry)

  abbrev pub worker_handle_of : Option (ℕ × ℕ) → Option ℕ
  worker_handle_of none = none
  worker_handle_of (some (worker, telemetry)) = some (libs.worker_handle worker)

  abbrev pub telemetry_of : Option (ℕ × ℕ) → Option ℕ
  telemetry_of none = none
  telemetry_of (some (worker, telemetry)) = some telemetry

  unfoldable pub import_queue_of : Bool → FullParts → ℕ → Option ℕ → Call W CliError ℕ
  import_queue_of dev parts slot telemetry =
      if dev
      then always (libs.manual_seal_import_queue parts.client parts.task_manager)
      else libs.aura_import_queue parts.client slot parts.task_manager telemetry

  unfoldable pub new_partial : Runtime → Configuration → Bool → Call W CliError PartialComponents
  unfolding endpoints_of start_telemetry spawn_worker import_queue_of
  new_partial r config dev = do
    started ← start_telemetry (endpoints_of config.telemetry_endpoints)
    parts ← libs.new_full_parts r config (telemetry_of started)
    telemetry ← spawn_worker parts.task_manager started
    transaction_pool ← always (
        libs.transaction_pool config.transaction_pool (is_authority config.role) parts.task_manager
          parts.client)
    slot ← libs.slot_duration parts.client
    import_queue ← import_queue_of dev parts slot telemetry
    pure (record {
      client = parts.client;
      backend = parts.backend;
      import_queue = import_queue;
      keystore_container = parts.keystore_container;
      task_manager = parts.task_manager;
      transaction_pool = transaction_pool;
      select_chain = if dev then some (libs.longest_chain parts.backend) else none;
      pending_transactions = some [];
      filter_pool = some [];
      telemetry = telemetry;
      telemetry_worker_handle = worker_handle_of started;
    })

-- The client, the backend, the import queue and the task manager.
abbrev pub Parts : Type 0
Parts = Client × ℕ × ℕ × ℕ

unfoldable pub in_memory_keystore : Configuration → Configuration
in_memory_keystore config = record config { keystore = Keystore.in_memory }

-- The components for a client that `Service.chosen_client` names.
unfoldable pub parts_of :
    {W : Type 0}
    → Builders W
    → Configuration
    → Result ServiceError Service.Client
    → Call W CliError Parts
parts_of libs config (err e) w = (err (service e), w)
parts_of libs config (ok c) w =
    (new_partial libs c.runtime config c.dev >>= λ p.
    pure (wrap c.runtime p.client, p.backend, p.import_queue, p.task_manager))
      w

-- The client, if there is one for the specification and its components can be built.
unfoldable pub new_chain_ops :
    {W : Type 0} → Features → Builders W → Configuration → Call W CliError Parts
unfolding parts_of in_memory_keystore
new_chain_ops f libs config =
    parts_of libs (in_memory_keystore config) (chosen_client f config.chain_spec)
