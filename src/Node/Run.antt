-- ===== src/Node/Run.antt =====
-- The start of a node: the `None` arm of `run` of node/src/command.rs, with the options of
-- node/src/cli.rs. It ends in a call of `start_node` or `start_dev` of node/src/service.rs, which Launch models.
-- Whether the genesis block and the relay chain's configuration can be made is a parameter.
use polkafoundry.Base.{ℕ, Bool, true, false, ◌&&◌, ◌||◌, Option, none, some, if◌then◌else◌}
use polkafoundry.Node.ChainSpec.{Runtime, Features, Extensions, enabled, endowed_account}
use polkafoundry.Node.Configuration.{Configuration}

pub data Sealing : Type 0 where
  manual instant : Sealing

-- `RunCmd` and `Cli`; the variants of `ForceChain` are the runtimes.
pub record Cli : Type 0 where
  -- `run.base.validator`
  pub validator : Bool
  pub parachain_id : Option ℕ
  pub start_dev : Bool
  pub force_chain : Runtime
  pub sealing : Sealing
  pub author_id : Option ℕ
  pub collator : Bool

-- Whether the genesis block and the configuration of the relay chain could be made.
pub record Prepared : Type 0 where
  pub genesis_block : Bool
  pub polkadot_config : Bool

pub data RunError : Type 0 where
  author_missing halongbay_not_available genesis_block_failed relay_chain_argument : RunError

-- What `run` does: it fails, panics, or calls `start_dev` with an author, the sealing and whether the node is
-- a validator, or `start_node` of a runtime with the author's id and the parachain's.
pub data Outcome : Type 0 where
  failed : RunError → Outcome
  panicked : Outcome
  start_dev : ℕ → Sealing → Bool → Outcome
  start_node : Runtime → Option ℕ → ℕ → Outcome

-- `Option::or` and `Option::unwrap_or`
abbrev pub or_else : {A : Type 0} → Option A → Option A → Option A
or_else none b = b
or_else (some a) b = some a

abbrev pub unwrap_or : {A : Type 0} → Option A → A → A
unwrap_or none d = d
unwrap_or (some a) d = a

abbrev pub is_none : {A : Type 0} → Option A → Bool
is_none none = true
is_none (some _) = false

abbrev pub para_id_of : Option Extensions → Option ℕ
para_id_of none = none
para_id_of (some e) = some e.para_id

-- The channel to the block author exists where a validator seals by hand.
abbrev pub has_command_sink : Sealing → Bool → Bool
has_command_sink manual validator = validator
has_command_sink instant validator = false

-- The part of `run` that starts a node for the relay chain.
unfoldable pub run_parachain : Features → Cli → Configuration → Prepared → Outcome
unfolding enabled
run_parachain f cli config prepared =
    let id = unwrap_or (or_else cli.parachain_id (para_id_of config.chain_spec.extensions)) 1111 in
    let started = start_node cli.force_chain cli.author_id id in
    if prepared.genesis_block
    then (if prepared.polkadot_config
        then (if enabled f cli.force_chain then started else panicked)
        else failed relay_chain_argument)
    else failed genesis_block_failed

unfoldable pub run : Features → Cli → Configuration → Prepared → Outcome
unfolding run_parachain
run f cli config prepared =
    let collator = cli.validator || cli.collator in
    let author_id = unwrap_or cli.author_id endowed_account in
    let developed =
      if f.halongbay
      then Outcome.start_dev author_id cli.sealing collator
      else failed halongbay_not_available in
    let started = if cli.start_dev then developed else run_parachain f cli config prepared in
    if collator && is_none cli.author_id then failed author_missing else started
