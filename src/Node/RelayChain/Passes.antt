-- ===== src/Node/RelayChain/Passes.antt =====
-- Which relay chain a node for a parachain follows, and what the library is told of it (`RelayChainCli`).
use polkafoundry.Base.{
  ℕ, ◌≡◌, ◌∙◌, refl, sym, ap, arith, Bool, true, Option, none, some, List, [], ◌∷◌, ok,
}
use polkafoundry.Node.ChainSpec.{
  Runtime, Features, ChainSpec, enabled, staging_extensions, staging_testnet_config,
}
use polkafoundry.Node.Configuration.{Configuration}
use polkafoundry.Node.Command.{Files, load_spec}
use polkafoundry.Node.Subcommand.Export.{dev_id, load_spec-dev_id}
use polkafoundry.Node.RelayChain.{
  CliConfiguration, configuration_of, polkadot_cli, new, or_else, chain_or, joined, relay_chain_of,
  unwrap_or_default,
}

-- The options after `--` come first: the relay chain is the one that they give, else the one of the
-- parachain's specification, else the empty id; the base path is theirs, else the directory `polkadot` in
-- that of the parachain's node. The library is never asked to start its logger for the relay chain,
-- since that panics. All else is what the library answers for these options.
pub configuration_of-polkadot_cli :
    (from_iter : List (List ℕ) → CliConfiguration) (join : List ℕ → List ℕ → List ℕ)
    (executable : List ℕ) (config : Configuration) (args : List (List ℕ))
    → let base = from_iter (executable ∷ args) in
      configuration_of (polkadot_cli from_iter join executable config args) ≡ record base {
        base_path = ok (or_else base.shared_params.base_path (joined join config.base_path));
        init = none;
        chain_id =
            λ is_dev. chain_or (relay_chain_of config.chain_spec.extensions) (base.chain_id is_dev);
      }
unfolding configuration_of polkadot_cli new
configuration_of-polkadot_cli from_iter join executable config args = refl

-- The chain that is given, if any.
abbrev pub given_or : List ℕ → List ℕ → List ℕ
given_or own [] = own
given_or own (c ∷ id) = c ∷ id

staging_extends :
    (r : Runtime) (wasm : Option (List ℕ)) (s : ChainSpec)
    → staging_testnet_config r wasm ≡ ok s
    → relay_chain_of s.extensions ≡ some (staging_extensions r).relay_chain
unfolding staging_testnet_config
staging_extends r none s h = absurd (ground arith)
staging_extends r (some w) s h = ground arith

chosen : (own : List ℕ) (given : List ℕ) → chain_or (some own) (ok given) ≡ ok (given_or own given)
unfolding chain_or unwrap_or_default
chosen own [] = refl
chosen own (c ∷ id) = refl

-- A node for the staging network of a runtime, in a build with that runtime, follows the local network of
-- Polkadot, of Kusama or of Rococo, as the staging specification of that runtime says, unless the options
-- after `--` give a relay chain; then it follows that one.
pub chain_id-staging :
    (f : Features) (files : Files) (r : Runtime) (from_iter : List (List ℕ) → CliConfiguration)
    (join : List ℕ → List ℕ → List ℕ) (executable : List ℕ) (config : Configuration)
    (args : List (List ℕ)) (is_dev : Bool) (given : List ℕ)
    → enabled f r ≡ true
    → load_spec f files (dev_id r) ≡ ok config.chain_spec
    → (from_iter (executable ∷ args)).chain_id is_dev ≡ ok given
    → (configuration_of (polkadot_cli from_iter join executable config args)).chain_id is_dev
      ≡ ok (given_or (staging_extensions r).relay_chain given)
unfolding configuration_of polkadot_cli new
chain_id-staging f files r from_iter join executable config args is_dev given on loaded asked =
    let made = sym (load_spec-dev_id f files r on) ∙ loaded in
    rw asked (
      ap (λ own. chain_or own (ok given))
        (staging_extends r (files.wasm_binary r) config.chain_spec made)
      ∙ chosen (staging_extensions r).relay_chain given)
