-- ===== src/Node/Tests/Commands.antt =====
-- The subcommands of the node with libraries that write lines: each writes what it was asked to do.
use polkafoundry.Base.{
  ℕ, ◌+◌, ◌*◌, ◌/◌, ◌%◌, ◌≡◌, refl, false, Option, none, some, List, [], ◌∷◌, ◌++◌, Result, ok, err,
  Call, codes, ◌>>=◌,
}
use polkafoundry.Node.ChainSpec.{Runtime, GenesisConfig}
use polkafoundry.Node.Configuration.{Configuration}
use polkafoundry.Node.Client.{FullClient}
use polkafoundry.Node.Service.{ServiceError}
use polkafoundry.Node.Service.Variant.{develops}
use polkafoundry.Node.Command.{native_runtime_version}
use polkafoundry.Node.Partial.{
  CliError, service, library, Builders, PartialComponents, new_partial, in_memory_keystore,
}
use polkafoundry.Node.Subcommand.{
  Commands, ExportGenesisWasmCommand, check_block, run_subcommand, code_key,
}
use polkafoundry.Node.Subcommand.Operations.{perform, checks, run_subcommand-native}
use polkafoundry.Node.Tests.{all_features, configuration, files}

-- A client of an empty chain.
abbrev empty_client : FullClient
empty_client = record {
  usage_info = 0;
  storage = λ id key. ok none;
  storage_keys = λ id prefix. ok [];
  storage_hash = λ id key. ok none;
  storage_pairs = λ id prefix. ok [];
  storage_keys_iter = λ id prefix start. ok [];
  child_storage = λ id child key. ok none;
  child_storage_keys = λ id child prefix. ok [];
  child_storage_hash = λ id child key. ok none;
  max_key_changes_range = λ first last. ok none;
  key_changes = λ first last storage key. ok [];
  block_body = λ id. ok none;
  block = λ id. ok none;
  block_status = λ id. ok 0;
  justifications = λ id. ok none;
  block_hash = λ n. ok none;
  indexed_transaction = λ h. ok none;
  has_indexed_transaction = λ h. ok false;
}

abbrev pub Lines : Type 0
Lines = List (List ℕ)

-- A line is written.
abbrev writes : List ℕ → Call Lines CliError (Unit {0})
writes l w = (ok tt, w ++ (l ∷ []))

abbrev pub builders : Builders Lines
builders = record {
  telemetry_worker = λ buffer w. (ok buffer, w);
  worker_handle = λ worker. worker + 1;
  new_telemetry = λ handle endpoints. handle;
  spawn = λ task_manager worker w. w ++ ((task_manager ∷ worker ∷ []) ∷ []);
  new_full_parts = λ r config telemetry w. (
    ok (record { client = empty_client; backend = 1; keystore_container = 2; task_manager = 3 }),
    w,
  );
  transaction_pool = λ options is_authority task_manager client w. (4, w);
  slot_duration = λ client w. (ok 12000, w);
  longest_chain = λ backend. backend;
  manual_seal_import_queue = λ client task_manager w. (5, w);
  aura_import_queue = λ client slot task_manager telemetry w. (ok 6, w);
}

-- Two digits of sixteen for each byte.
abbrev digits : List ℕ → List ℕ
digits [] = []
digits (x ∷ xs) = (x / 16) ∷ (x % 16) ∷ digits xs

abbrev undigits : List ℕ → Option (List ℕ)
undigits [] = some []
undigits (a ∷ []) = none
undigits (a ∷ b ∷ xs) = elim (undigits xs) [ none ↦ none | some ys ↦ some ((a * 16 + b) ∷ ys) ]

abbrev stored : Option GenesisConfig → Result CliError (List (List ℕ × List ℕ))
stored none = err (library 1)
stored (some g) = ok ((code_key, g.code) ∷ [])

abbrev commands : Commands Lines
commands = record {
  create_runner = λ cmd w. (ok configuration, w);
  build_spec = λ cmd s network. writes s.id;
  check_block = λ cmd client queue. writes (cmd ∷ client.usage_info ∷ queue ∷ []);
  export_blocks = λ cmd client database. writes (cmd ∷ client.usage_info ∷ database ∷ []);
  export_state = λ cmd client s. writes s.id;
  import_blocks = λ cmd client queue. writes (cmd ∷ client.usage_info ∷ queue ∷ []);
  purge_chain = λ cmd database. writes (cmd ∷ database ∷ []);
  revert = λ cmd client backend. writes (cmd ∷ client.usage_info ∷ backend ∷ []);
  init_logger = λ w. w;
  write = λ path bytes. writes bytes;
  write_stdout = λ bytes. writes bytes;
  build_storage = λ s. stored s.genesis;
  generate_genesis_block = λ s. ok s.id;
  hex = digits;
}

-- `check-block` with the options 8; the specification of the configuration is taken for Halongbay.
run_subcommand-native_example :
    ((r : Runtime)
      → native_runtime_version all_features configuration.chain_spec ≡ some r
      → run_subcommand commands all_features files builders (check_block 8) []
        ≡ (new_partial builders r (in_memory_keystore configuration) (develops r)
              >>= perform commands (check_block 8) configuration)
            [])
    × (native_runtime_version all_features configuration.chain_spec ≡ none
        → (e : ServiceError) × (run_subcommand commands all_features files builders
              (check_block 8)
              []
            ≡ (err (service e), [])))
run_subcommand-native_example =
    run_subcommand-native commands all_features files builders (check_block 8) 8 configuration [] []
      (checks 8) refl

abbrev in_hex : ExportGenesisWasmCommand
in_hex = record { output = some (codes "wasm"); raw = false; chain = some (codes "polkasmith-dev") }

abbrev with_telemetry : Configuration
with_telemetry = record configuration { telemetry_endpoints = some (9 ∷ []) }

abbrev components : PartialComponents
components = record {
  client = empty_client;
  backend = 1;
  import_queue = 6;
  keystore_container = 2;
  task_manager = 3;
  transaction_pool = 4;
  select_chain = none;
  pending_transactions = some [];
  filter_pool = some [];
  telemetry = some 17;
  telemetry_worker_handle = some 17;
}

built :
    new_partial builders Runtime.polka_smith with_telemetry false []
    ≡ (ok components, (3 ∷ 16 ∷ []) ∷ [])
unfolding new_partial
built = refl
