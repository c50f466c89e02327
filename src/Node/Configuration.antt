-- ===== src/Node/Configuration.antt =====
-- `Configuration`, which a library makes of a node's options: what node/src/service.rs and
-- node/src/command.rs read of it. A value that they only pass on is a number.
use polkafoundry.Base.{ℕ, Bool, true, false, Option, List}
use polkafoundry.Node.ChainSpec.{ChainSpec}

pub data Role : Type 0 where
  full light authority : Role

pub data Keystore : Type 0 where
  in_memory : Keystore
  path : ℕ → Keystore

pub record Configuration : Type 0 where
  pub chain_spec : ChainSpec
  pub role : Role
  pub keystore : Keystore
  pub telemetry_endpoints : Option (List ℕ)
  pub transaction_pool : ℕ
  pub network : ℕ
  pub database : ℕ
  pub offchain_worker : Bool
  pub base_path : Option (List ℕ)

abbrev pub is_light : Role → Bool
is_light Role.light = true
is_light _ = false

abbrev pub is_authority : Role → Bool
is_authority Role.authority = true
is_authority _ = false
