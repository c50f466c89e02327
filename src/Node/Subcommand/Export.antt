-- ===== src/Node/Subcommand/Export.antt =====
-- What `export-genesis-state` and `export-genesis-wasm` of node/src/command.rs write.
use polkafoundry.Base.{
  ℕ, ◌≡◌, refl, arith, Bool, true, false, Option, none, some, List, [], ok, codes, starts_with,
  drop, if◌then◌else◌,
}
use polkafoundry.Node.ChainSpec.{
  Runtime, Features, ChainSpec, GenesisConfig, enabled, staging_testnet_config,
}
use polkafoundry.Node.Command.{Files, load_spec}
use polkafoundry.Node.Subcommand.{
  Commands, ExportGenesisStateCommand, remove, code_key, chain_or_empty, output_buf, write_output,
  run_export_genesis_state,
}

-- The id under which a runtime's staging specification is made anew.
abbrev pub dev_id : Runtime → List ℕ
dev_id Runtime.polka_foundry = codes "polkafoundry-dev"
dev_id Runtime.polka_smith = codes "polkasmith-dev"
dev_id Runtime.halongbay = []

pub load_spec-dev_id :
    (f : Features) (files : Files) (r : Runtime)
    → enabled f r ≡ true
    → load_spec f files (dev_id r) ≡ staging_testnet_config r (files.wasm_binary r)
unfolding load_spec enabled
load_spec-dev_id f files Runtime.polka_foundry on = rw on refl
load_spec-dev_id f files Runtime.polka_smith on = ground arith
load_spec-dev_id f files Runtime.halongbay on = ground arith

-- How the one who registers the parachain reads a file or the terminal.
abbrev pub read_back : (List ℕ → Option (List ℕ)) → Bool → List ℕ → Option (List ℕ)
read_back unhex raw out =
    if raw then some out else (if starts_with out (codes "0x") then unhex (drop 2 out) else none)

-- Hexadecimal digits can be read again, and the genesis storage has the configured code under the key of
-- the code.
pub record Exports {W : Type 0} (commands : Commands W) (unhex : List ℕ → Option (List ℕ))
    : Type 0 where
  pub unhex-hex : (b : List ℕ) → unhex (commands.hex b) ≡ some b
  pub code_stored :
      (s : ChainSpec) (g : GenesisConfig)
      → s.genesis ≡ some g
      → (top : List (List ℕ × List ℕ)) × (commands.build_storage s ≡ ok top)
        × (remove code_key top ≡ some g.code)

module _ {W : Type 0} (commands : Commands W) (unhex : List ℕ → Option (List ℕ))
    (law : Exports commands unhex) where
  read_back-output_buf :
      (raw : Bool) (b : List ℕ) → read_back unhex raw (output_buf commands raw b) ≡ some b
  unfolding output_buf
  read_back-output_buf true b = refl
  read_back-output_buf false b = law.unhex-hex b

  module _ (f : Features) (files : Files) where
    -- For a chain whose specification is found and whose genesis block can be made, `export-genesis-state`
    -- writes once, to the given file or to the standard output, and what it writes reads back as the header
    -- of that block; it writes the same for any option `--parachain-id`.
    pub export_genesis_state_lem :
        (params : ExportGenesisStateCommand) (s : ChainSpec) (header : List ℕ) (w : W)
        → load_spec f files (chain_or_empty params.chain) ≡ ok s
        → commands.generate_genesis_block s ≡ ok header
        → (buf : List ℕ) × ((id : ℕ)
            → run_export_genesis_state commands f files (record params { parachain_id = id }) w
              ≡ write_output commands params.output buf (commands.init_logger w))
          × (read_back unhex params.raw buf ≡ some header)
    unfolding run_export_genesis_state
    export_genesis_state_lem params s header w loaded made = (
      output_buf commands params.raw header,
      λ id. rw (loaded, made) refl,
      read_back-output_buf params.raw header,
    )
