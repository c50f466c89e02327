-- ===== src/Runtime/Ethereum.antt =====
-- `EthereumRuntimeRPCApi` and `TransactionConverter` of runtime/halongbay/src/lib.rs (and the same text in the
-- other two runtimes). Numbers of 256 and of 160 bits, like the values that are only passed on, are
-- numbers; the state `W` is that of the runtime.
pub mod Limits
use polkafoundry.Base.{ℕ, ◌%◌, ◌^◌, Bool, Option, none, some, List, Result, ok, err, if◌then◌else◌}
use polkafoundry.Node.ChainSpec.{Runtime}
use polkafoundry.Runtime.Constants.{chain_id}

-- The configuration of the EVM; `rest` stands for its other fields.
pub record EvmConfig : Type 0 where
  pub estimate : Bool
  pub rest : ℕ

-- What a call and the creation of a contract share.
pub record Request : Type 0 where
  pub from : ℕ
  pub input : List ℕ
  pub value : ℕ
  pub gas_limit : ℕ
  pub gas_price : Option ℕ
  pub nonce : Option ℕ
  pub estimate : Bool

-- The pallets that the interface asks, and `T::Runner`, which takes a gas limit of 64 bits.
pub record Pallets (W : Type 0) : Type 0 where
  pub account_basic : ℕ → W → ℕ × ℕ
  pub min_gas_price : W → ℕ
  pub account_codes : ℕ → W → List ℕ
  pub find_author : W → ℕ
  pub account_storages : ℕ → List ℕ → W → ℕ
  pub to_big_endian : ℕ → List ℕ
  pub config : EvmConfig
  pub call : ℕ → ℕ → List ℕ → ℕ → ℕ → Option ℕ → Option ℕ → EvmConfig → W → Result ℕ ℕ × W
  pub create : ℕ → List ℕ → ℕ → ℕ → Option ℕ → Option ℕ → EvmConfig → W → Result ℕ ℕ × W
  pub current_block : W → Option ℕ
  pub current_receipts : W → Option (List ℕ)
  pub current_transaction_statuses : W → Option (List ℕ)
  pub into_dispatch_error : ℕ → ℕ

-- `U256::low_u64`
unfoldable pub low_u64 : ℕ → ℕ
low_u64 n = n % 2 ^ 64

-- `result.map_err(f)`
abbrev pub map_err : {W : Type 0} → (ℕ → ℕ) → Result ℕ ℕ × W → Result ℕ ℕ × W
map_err f (ok a, w) = (ok a, w)
map_err f (err e, w) = (err (f e), w)

abbrev pub or_config : Option EvmConfig → EvmConfig → EvmConfig
or_config none d = d
or_config (some c) d = c

-- The block, the receipts and the statuses of the block that was executed last.
pub record CurrentAll : Type 0 where
  pub block : Option ℕ
  pub receipts : Option (List ℕ)
  pub statuses : Option (List ℕ)

module _ {W : Type 0} (pallets : Pallets W) where
  unfoldable pub evm_chain_id : ℕ
  evm_chain_id = chain_id Runtime.halongbay

  unfoldable pub storage_at : ℕ → ℕ → W → ℕ
  storage_at address index = pallets.account_storages address (pallets.to_big_endian index)

  -- `config` where the request is for an estimate.
  unfoldable pub estimating : Bool → Option EvmConfig
  estimating estimate =
      if estimate then some (record pallets.config { estimate = Bool.true }) else none

  unfoldable pub evm_call : ℕ → Request → W → Result ℕ ℕ × W
  unfolding low_u64 estimating
  evm_call to r w = map_err pallets.into_dispatch_error (
      pallets.call r.from to r.input r.value (low_u64 r.gas_limit) r.gas_price r.nonce
        (or_config (estimating r.estimate) pallets.config) w)

  unfoldable pub evm_create : Request → W → Result ℕ ℕ × W
  unfolding low_u64 estimating
  evm_create r w = map_err pallets.into_dispatch_error (
      pallets.create r.from r.input r.value (low_u64 r.gas_limit) r.gas_price r.nonce
        (or_config (estimating r.estimate) pallets.config) w)

  unfoldable pub current_all : W → CurrentAll
  current_all w = record {
    block = pallets.current_block w;
    receipts = pallets.current_receipts w;
    statuses = pallets.current_transaction_statuses w;
  }

-- `TransactionConverter`: `new_unsigned` wraps `pallet_ethereum::Call::transact(transaction)`; `Extrinsic` is
-- the runtime's, `Opaque` that of the node.
pub record Codec (Transaction Extrinsic Opaque : Type 0) : Type 0 where
  pub transact : Transaction → Extrinsic
  pub encode : Extrinsic → List ℕ
  pub decode : List ℕ → Result ℕ Opaque

-- A panic is `none`.
abbrev pub expect : {A : Type 0} → Result ℕ A → Option A
expect (ok a) = some a
expect (err e) = none

module _ {Transaction Extrinsic Opaque : Type 0} (codec : Codec Transaction Extrinsic Opaque) where
  unfoldable pub convert_transaction : Transaction → Extrinsic
  convert_transaction transaction = codec.transact transaction

  unfoldable pub convert_opaque : Transaction → Option Opaque
  convert_opaque transaction = expect (codec.decode (codec.encode (codec.transact transaction)))
