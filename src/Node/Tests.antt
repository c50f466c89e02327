-- ===== src/Node/Tests.antt =====
-- The theorems on the node at inputs that meet their hypotheses; those on its commands are in Commands.
mod Commands
mod Launches
use polkafoundry.Base.{
  ℕ, ◌+◌, ◌≡◌, refl, arith, true, false, ◌&&◌, Option, none, some, List, [], ◌∷◌, Map, lookup, ltb,
  codes, ok,
}
use polkafoundry.Node.ChainSpec.{Runtime, Features, ChainSpec, enabled}
use polkafoundry.Node.Configuration.{Role, Keystore, Configuration}
use polkafoundry.Node.Service.{client_of, chosen_client}
use polkafoundry.Node.Service.Variant.{is_polkafoundry_misses}
use polkafoundry.Node.Command.{
  Files, keep_component, components, last_component, file_name, file_starts_with, load_path,
  load_spec, native_runtime_version,
}
use polkafoundry.Node.Command.Loading.{ReadsAs, load_spec-enabled}
use polkafoundry.Node.Rpc.{
  system, transaction_payment, eth, eth_filter, net, web3, eth_pub_sub, create_full, served_runtime,
}
use polkafoundry.Node.Run.{Cli, Prepared, Sealing, Outcome, run, run_parachain}
use polkafoundry.Node.Pools.Lifespan.{kept}
use polkafoundry.Node.Pools.Pending.{
  transactions_after, transactions_after-highest, is_unprocessed_by_all,
}

abbrev pub all_features : Features
all_features = record { polka_foundry = true; polka_smith = true; halongbay = true }

abbrev pub staging : ChainSpec
staging = record {
  runtime = Runtime.polka_foundry;
  id = codes "polkafoundry_staging_testnet";
  properties = none;
  extensions = none;
  genesis = none;
}

is_polkafoundry_misses_example :
    (native_runtime_version all_features staging ≡ some Runtime.halongbay)
    × (chosen_client all_features staging ≡ client_of true Runtime.halongbay true)
is_polkafoundry_misses_example =
    is_polkafoundry_misses all_features staging 95 (codes "staging_testnet") refl (omega arith)

abbrev cli : Cli
cli = record {
  validator = true;
  parachain_id = some 2000;
  start_dev = false;
  force_chain = Runtime.polka_smith;
  sealing = Sealing.instant;
  author_id = some 7;
  collator = false;
}

abbrev pub configuration : Configuration
configuration = record {
  chain_spec = staging;
  role = Role.authority;
  keystore = Keystore.path 3;
  telemetry_endpoints = none;
  transaction_pool = 0;
  network = 0;
  database = 4;
  offchain_worker = true;
  base_path = none;
}

abbrev prepared : Prepared
prepared = record { genesis_block = true; polkadot_config = true }

-- The forced runtime is started, with the parachain of the options.
starts :
    run all_features cli configuration prepared
    ≡ Outcome.start_node Runtime.polka_smith (some 7) 2000
unfolding run run_parachain enabled
starts = refl

interfaces :
    create_full all_features
      (record { is_authority = true; filter_pool = true; command_sink = false })
      (some Runtime.polka_smith)
    ≡ some (
        system
        ∷ transaction_payment
        ∷ eth Runtime.polka_smith true
        ∷ eth_filter 500
        ∷ net
        ∷ web3
        ∷ eth_pub_sub
        ∷ [])
unfolding create_full served_runtime enabled
interfaces = refl

-- Three transactions, of which one is processed and one is too old.
abbrev pending : Map ℕ
pending = (11, 5) ∷ (12, 5) ∷ (13, 7) ∷ []

abbrev imports : List (ℕ × Option (List ℕ))
imports = (9, none) ∷ (10, some (12 ∷ [])) ∷ []

transactions_after-highest_example :
    lookup 13 (transactions_after (λ v. v) imports pending)
    ≡ kept (λ v. is_unprocessed_by_all (λ v. v) imports 13 && ltb 10 (v + 5)) (some 7)
transactions_after-highest_example =
    transactions_after-highest (λ v. v) imports pending (refl, (refl, (refl, tt))) 13
      (λ v e. ground arith)

-- Every file holds a specification for the runtime that it is read for.
abbrev pub any_spec : Runtime → ChainSpec
any_spec r = record staging { runtime = r }

abbrev pub files : Files
files = record {
  embedded = λ r. ok (any_spec r);
  from_json_file = λ r path. ok (any_spec r);
  wasm_binary = λ r. some (0 ∷ 97 ∷ 255 ∷ []);
}

files-ReadsAs : ReadsAs files
files-ReadsAs = record {
  embedded_as = λ r s h. ground arith;
  from_json_as = λ r path s h. ground arith;
}

abbrev smith_only : Features
smith_only = record { polka_foundry = false; polka_smith = true; halongbay = false }

loads :
    load_spec smith_only files (codes "specs/polkasmith.json") ≡ ok (any_spec Runtime.polka_smith)
unfolding load_spec load_path file_starts_with file_name last_component components keep_component
loads = refl

load_spec-enabled_example : enabled smith_only Runtime.polka_smith ≡ true
load_spec-enabled_example =
    load_spec-enabled smith_only files files-ReadsAs (codes "specs/polkasmith.json")
      (any_spec Runtime.polka_smith) loads
