-- ===== src/Runtime/Ethereum/Limits.antt =====
-- With which limits and settings the Ethereum interface of runtime/halongbay/src/lib.rs runs a request.
use polkafoundry.Base.{ℕ, ◌/◌, ◌*◌, ◌+◌, ◌^◌, ◌≤◌, ◌<◌, ◌≡◌, ◌↔◌, refl, arith, ◌||◌, Bool}
use polkafoundry.Runtime.Ethereum.{
  EvmConfig, Request, Pallets, low_u64, map_err, or_config, estimating, evm_call, evm_create,
}

-- The gas limit and the settings with which a request is run.
pub record Limits (asked : ℕ) (estimate : Bool) (own used : EvmConfig) (gas : ℕ) : Type 0 where
  pub never_more : gas ≤ asked
  pub below : gas < 2 ^ 64
  pub exact : (gas ≡ asked) ↔ (asked < 2 ^ 64)
  pub lost : asked ≡ gas + asked / 2 ^ 64 * 2 ^ 64
  pub estimates : used.estimate ≡ (estimate || own.estimate)
  pub same : used.rest ≡ own.rest

module _ {W : Type 0} (pallets : Pallets W) where
  limits :
      (r : Request)
      → Limits r.gas_limit r.estimate pallets.config
          (or_config (estimating pallets r.estimate) pallets.config)
          (low_u64 r.gas_limit)
  unfolding low_u64 estimating
  limits r = record {
    never_more = omega arith;
    below = omega arith;
    exact = (λ h. omega arith, λ h. omega arith);
    lost = omega arith;
    estimates = ground arith;
    same = ground arith;
  }

  -- A call and the creation of a contract run once, with the sender, the input, the value, the price and the
  -- nonce of the request, in the runtime's EVM settings with estimation switched on exactly if it was asked
  -- for or is on anyway. The gas limit is the one asked for exactly if that is below 2 ^ 64; it never is
  -- more, and of a greater one only what is left of the last multiple of 2 ^ 64 remains.
  pub evm_call-evm_create :
      (to : ℕ) (r : Request) (w : W)
      → (used : EvmConfig) × (gas : ℕ) × Limits r.gas_limit r.estimate pallets.config used gas
        × (evm_call pallets to r w
            ≡ map_err pallets.into_dispatch_error
                (pallets.call r.from to r.input r.value gas r.gas_price r.nonce used w))
        × (evm_create pallets r w
            ≡ map_err pallets.into_dispatch_error
                (pallets.create r.from r.input r.value gas r.gas_price r.nonce used w))
  unfolding evm_call evm_create
  evm_call-evm_create to r w = (_, _, limits r, refl, refl)
