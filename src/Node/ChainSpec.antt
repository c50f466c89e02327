-- ===== src/Node/ChainSpec.antt =====
-- Chain specifications (node/src/chain_spec): the three runtimes, what a specification holds, and the
-- staging ones with their genesis. The embedded JSON files and their parser are a parameter, as is the
-- wasm binary that the build makes, which may be missing.
use polkafoundry.Base.{ℕ, ◌*◌, Bool, Option, none, some, List, [], ◌∷◌, map, Result, ok, err, codes}

pub data Runtime : Type 0 where
  polka_foundry polka_smith halongbay : Runtime

-- The features that the node was compiled with.
pub record Features : Type 0 where
  pub polka_foundry : Bool
  pub polka_smith : Bool
  pub halongbay : Bool

unfoldable pub enabled : Features → Runtime → Bool
enabled f Runtime.polka_foundry = f.polka_foundry
enabled f Runtime.polka_smith = f.polka_smith
enabled f Runtime.halongbay = f.halongbay

pub record Extensions : Type 0 where
  pub relay_chain : List ℕ
  pub para_id : ℕ

pub record GenesisConfig : Type 0 where
  pub code : List ℕ
  pub balances : List (ℕ × ℕ)
  pub sudo_key : ℕ
  pub parachain_id : ℕ
  pub authorities : List ℕ

pub record Properties : Type 0 where
  pub token_symbol : List ℕ
  pub token_decimals : ℕ
  pub ss58_format : ℕ

-- A specification of one of the types `PolkaFoundryChainSpec`, `PolkaSmithChainSpec` and
-- `HalongbayChainSpec`. A JSON file may lack the extensions.
pub record ChainSpec : Type 0 where
  pub runtime : Runtime
  pub id : List ℕ
  pub properties : Option Properties
  pub extensions : Option Extensions
  pub genesis : Option GenesisConfig

pub data SpecError : Type 0 where
  wasm_not_available not_available invalid_json : SpecError

-- ea8e9d3cfedc8afec25785703681d424e6aba10b728927b89d87a3776b47ee32
abbrev pub endowed_account : ℕ
endowed_account = 106093184070296159792777085977323498346074986613387274450630074796545617161778

-- One unit of the native token: `HLB`, `PKF` and `PKS`.
unfoldable pub unit : Runtime → ℕ
unit Runtime.polka_foundry = 1000000000000000000
unit Runtime.polka_smith = 1000000000000000000
unit Runtime.halongbay = 1000000000000

unfoldable pub endowment : Runtime → ℕ
unfolding unit
endowment r = 200000000 * unit r

-- `*_staging_testnet_config_genesis`
unfoldable pub staging_testnet_config_genesis : Runtime → List ℕ → GenesisConfig
unfolding endowment
staging_testnet_config_genesis r wasm_binary =
    let endowed_accounts = endowed_account ∷ [] in
    record {
      code = wasm_binary;
      balances = map (λ k. (k, endowment r)) endowed_accounts;
      sudo_key = endowed_account;
      parachain_id = 1111;
      authorities = endowed_account ∷ [];
    }

unfoldable pub staging_id : Runtime → List ℕ
staging_id Runtime.polka_foundry = codes "polkafoundry_staging_testnet"
staging_id Runtime.polka_smith = codes "polkasmith_staging_testnet"
staging_id Runtime.halongbay = codes "halongbay_staging_testnet"

unfoldable pub staging_extensions : Runtime → Extensions
staging_extensions Runtime.polka_foundry = record {
  relay_chain = codes "polkadot-local";
  para_id = 1111;
}
staging_extensions Runtime.polka_smith = record {
  relay_chain = codes "kusama-local";
  para_id = 2009;
}
staging_extensions Runtime.halongbay = record { relay_chain = codes "rococo-local"; para_id = 1111 }

unfoldable pub chain_properties : Runtime → Properties
chain_properties Runtime.polka_foundry = record {
  token_symbol = codes "PKF";
  token_decimals = 18;
  ss58_format = 99;
}
chain_properties Runtime.polka_smith = record {
  token_symbol = codes "PKS";
  token_decimals = 18;
  ss58_format = 98;
}
chain_properties Runtime.halongbay = record {
  token_symbol = codes "HLB";
  token_decimals = 12;
  ss58_format = 42;
}

-- The properties that a staging specification is given.
unfoldable pub staging_properties : Runtime → Option Properties
unfolding chain_properties
staging_properties Runtime.polka_foundry = none
staging_properties r = some (chain_properties r)

-- `*_staging_testnet_config`
unfoldable pub staging_testnet_config : Runtime → Option (List ℕ) → Result SpecError ChainSpec
unfolding staging_id staging_properties staging_extensions staging_testnet_config_genesis
staging_testnet_config r none = err wasm_not_available
staging_testnet_config r (some wasm_binary) = ok (record {
  runtime = r;
  id = staging_id r;
  properties = staging_properties r;
  extensions = some (staging_extensions r);
  genesis = some (staging_testnet_config_genesis r wasm_binary);
})
