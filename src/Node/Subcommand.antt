-- ===== src/Node/Subcommand.antt =====
-- node/src/command.rs: the arms of `run` for the subcommands of node/src/cli.rs. What a library's command does
-- is a parameter; its options, which the arms only pass on, are a number. The state `W` is that of the
-- libraries, with the files and the standard output.
pub mod Operations
pub mod Export
use polkafoundry.Base.{
  ℕ, Bool, Option, none, some, List, [], ◌∷◌, ◌++◌, Result, ok, err, Call, ◌>>=◌, ◌>>◌, modify,
  codes, same_text, if◌then◌else◌,
}
use polkafoundry.Node.ChainSpec.{Features, ChainSpec, SpecError}
use polkafoundry.Node.Configuration.{Configuration}
use polkafoundry.Node.Client.{FullClient, operations}
use polkafoundry.Node.Command.{Files, load_spec}
use polkafoundry.Node.Partial.{CliError, spec, no_wasm, Builders, new_chain_ops}

pub record ExportGenesisStateCommand : Type 0 where
  pub output : Option (List ℕ)
  pub parachain_id : ℕ
  pub raw : Bool
  pub chain : Option (List ℕ)

pub record ExportGenesisWasmCommand : Type 0 where
  pub output : Option (List ℕ)
  pub raw : Bool
  pub chain : Option (List ℕ)

pub data Subcommand : Type 0 where
  export_genesis_state : ExportGenesisStateCommand → Subcommand
  export_genesis_wasm : ExportGenesisWasmCommand → Subcommand
  build_spec check_block export_blocks export_state import_blocks : ℕ → Subcommand
  purge_chain revert : ℕ → Subcommand

-- What the libraries do. `build_storage` gives the top of the genesis storage; `generate_genesis_block`
-- the encoded header of the genesis block; `hex` prints bytes in hexadecimal.
pub record Commands (W : Type 0) : Type 0 where
  pub create_runner : ℕ → Call W CliError Configuration
  pub build_spec : ℕ → ChainSpec → ℕ → Call W CliError (Unit {0})
  pub check_block : ℕ → FullClient → ℕ → Call W CliError (Unit {0})
  pub export_blocks : ℕ → FullClient → ℕ → Call W CliError (Unit {0})
  pub export_state : ℕ → FullClient → ChainSpec → Call W CliError (Unit {0})
  pub import_blocks : ℕ → FullClient → ℕ → Call W CliError (Unit {0})
  pub purge_chain : ℕ → ℕ → Call W CliError (Unit {0})
  pub revert : ℕ → FullClient → ℕ → Call W CliError (Unit {0})
  pub init_logger : W → W
  pub write : List ℕ → List ℕ → Call W CliError (Unit {0})
  pub write_stdout : List ℕ → Call W CliError (Unit {0})
  pub build_storage : ChainSpec → Result CliError (List (List ℕ × List ℕ))
  pub generate_genesis_block : ChainSpec → Result CliError (List ℕ)
  pub hex : List ℕ → List ℕ

-- `storage.top.remove(key)`
unfoldable pub remove : List ℕ → List (List ℕ × List ℕ) → Option (List ℕ)
remove key [] = none
remove key ((k, v) ∷ top) = let rest = remove key top in if same_text k key then some v else rest

-- `well_known_keys::CODE`
abbrev pub code_key : List ℕ
code_key = codes ":code"

unfoldable pub take_code : List (List ℕ × List ℕ) → Result CliError (List ℕ)
unfolding remove
take_code top = elim (remove code_key top) [ none ↦ err no_wasm | some wasm ↦ ok wasm ]

-- `params.chain.clone().unwrap_or_default()`
abbrev pub chain_or_empty : Option (List ℕ) → List ℕ
chain_or_empty none = []
chain_or_empty (some id) = id

-- `Err(…)?`: the error of a specification is one of the program.
abbrev pub spec_result : Result SpecError ChainSpec → Result CliError ChainSpec
spec_result (ok s) = ok s
spec_result (err e) = err (spec e)

abbrev pub lift : {W A : Type 0} → Result CliError A → Call W CliError A
lift r w = (r, w)

module _ {W : Type 0} (commands : Commands W) where
  unfoldable pub extract_genesis_wasm : ChainSpec → Result CliError (List ℕ)
  unfolding take_code
  extract_genesis_wasm s = elim (commands.build_storage s) [
    | err e ↦ err e
    | ok top ↦ take_code top
  ]

  -- `output_buf`
  unfoldable pub output_buf : Bool → List ℕ → List ℕ
  output_buf raw bytes = if raw then bytes else codes "0x" ++ commands.hex bytes

  unfoldable pub write_output : Option (List ℕ) → List ℕ → Call W CliError (Unit {0})
  write_output none buf = commands.write_stdout buf
  write_output (some path) buf = commands.write path buf

  module _ (f : Features) (files : Files) where
    unfoldable pub run_export_genesis_state : ExportGenesisStateCommand → Call W CliError (Unit {0})
    unfolding output_buf write_output
    run_export_genesis_state params = do
      modify commands.init_logger
      s ← lift (spec_result (load_spec f files (chain_or_empty params.chain)))
      raw_header ← lift (commands.generate_genesis_block s)
      write_output params.output (output_buf params.raw raw_header)

    unfoldable pub run_export_genesis_wasm : ExportGenesisWasmCommand → Call W CliError (Unit {0})
    unfolding output_buf write_output extract_genesis_wasm
    run_export_genesis_wasm params = do
      modify commands.init_logger
      s ← lift (spec_result (load_spec f files (chain_or_empty params.chain)))
      raw_wasm_blob ← lift (extract_genesis_wasm s)
      write_output params.output (output_buf params.raw raw_wasm_blob)

    -- The arms for subcommands. A command is given a client of `new_chain_ops`, which is one of three.
    unfoldable pub run_subcommand : Builders W → Subcommand → Call W CliError (Unit {0})
    unfolding run_export_genesis_state run_export_genesis_wasm
    run_subcommand libs (build_spec cmd) = do
      config ← commands.create_runner cmd
      commands.build_spec cmd config.chain_spec config.network
    run_subcommand libs (check_block cmd) = do
      config ← commands.create_runner cmd
      (client, _, import_queue, _) ← new_chain_ops f libs config
      commands.check_block cmd (operations client) import_queue
    run_subcommand libs (export_blocks cmd) = do
      config ← commands.create_runner cmd
      (client, _, _, _) ← new_chain_ops f libs config
      commands.export_blocks cmd (operations client) config.database
    run_subcommand libs (export_state cmd) = do
      config ← commands.create_runner cmd
      (client, _, _, _) ← new_chain_ops f libs config
      commands.export_state cmd (operations client) config.chain_spec
    run_subcommand libs (import_blocks cmd) = do
      config ← commands.create_runner cmd
      (client, _, import_queue, _) ← new_chain_ops f libs config
      commands.import_blocks cmd (operations client) import_queue
    run_subcommand libs (purge_chain cmd) = do
      config ← commands.create_runner cmd
      commands.purge_chain cmd config.database
    run_subcommand libs (revert cmd) = do
      config ← commands.create_runner cmd
      (client, backend, _, _) ← new_chain_ops f libs config
      commands.revert cmd (operations client) backend
    run_subcommand libs (export_genesis_state params) = run_export_genesis_state params
    run_subcommand libs (export_genesis_wasm params) = run_export_genesis_wasm params
