-- ===== src/Runtime/Tests.antt =====
-- A donation, a reward and an allocation on one chain.
use polkafoundry.Base.{
  ℕ, ◌+◌, ◌^◌, ◌≡◌, true, false, none, ok, ◌==◌, refl, arith, List, [], ◌∷◌, root, signed,
}
use polkafoundry.Samples.{Balances, sample_currency, sample_TransferMoves}
use polkafoundry.Runtime.{
  RuntimeConfig, Chain, Happening, extrinsic, new_block, elsewhere, happen_all,
  crowdloan_initialize_reward, crowdloan_associate_account, crowdloan_get_money, treasury_donate,
  treasury_allocate,
}
use polkafoundry.Runtime.Ethereum.{EvmConfig, Request, Pallets, map_err, evm_call, evm_create}
use polkafoundry.Runtime.Ethereum.Limits.{Limits, evm_call-evm_create}
use polkafoundry.Runtime.Audit.{AllOrdinary, Emptied, Balanced, happen_all-Balanced}

abbrev cfg : RuntimeConfig Balances ℕ
cfg = record {
  currency = sample_currency;
  treasury_account = 100;
  verify = λ proof who relay. proof == relay;
}

abbrev start : Chain Balances
start = record {
  crowdloan = record {
    balances = record { free = λ a. 1000; reserved = λ a. 0 };
    block_number = 10;
    contributors = [];
    associated_accounts = [];
    current_reward_end_in = 0;
    reward_period = 0;
    events = [];
  };
  treasury_events = [];
}

-- The last allocation fails.
abbrev story : List (Happening Balances ℕ)
story =
    extrinsic root (crowdloan_initialize_reward ((5, 100) ∷ []) 3 60)
    ∷ extrinsic (signed 1) (crowdloan_associate_account 5 5)
    ∷ new_block 20
    ∷ extrinsic (signed 2) (treasury_donate 300)
    ∷ extrinsic (signed 1) crowdloan_get_money
    ∷ elsewhere (λ l. l)
    ∷ extrinsic root (treasury_allocate 3 200)
    ∷ extrinsic (signed 4) (treasury_allocate 4 10)
    ∷ []

story-AllOrdinary : AllOrdinary cfg story
story-AllOrdinary = (
  (tt, tt),
  (
    (λ e. ground arith, tt),
    (
      tt,
      (
        (λ e. ground arith, tt),
        (
          (λ e. ground arith, tt),
          (λ l. refl, ((tt, λ e. ground arith), ((λ e. ground arith, λ e. ground arith), tt))),
        ),
      ),
    ),
  ),
)

happen_all-Balanced_example :
    Balanced cfg (Emptied cfg story start) start (happen_all cfg story start)
happen_all-Balanced_example =
    happen_all-Balanced cfg sample_TransferMoves story start story-AllOrdinary

-- An EVM that writes the gas of each request to the state and returns it.
abbrev pallets : Pallets (List ℕ)
pallets = record {
  account_basic = λ address w. (0, 0);
  min_gas_price = λ w. 1;
  account_codes = λ address w. [];
  find_author = λ w. 0;
  account_storages = λ address index w. 0;
  to_big_endian = λ index. index ∷ [];
  config = record { estimate = false; rest = 5 };
  call = λ from to input value gas price nonce config w. (ok gas, gas ∷ w);
  create = λ from input value gas price nonce config w. (ok gas, gas ∷ w);
  current_block = λ w. none;
  current_receipts = λ w. none;
  current_transaction_statuses = λ w. none;
  into_dispatch_error = λ e. e;
}

-- An estimate with a gas limit above 2 ^ 64.
abbrev request : Request
request = record {
  from = 1;
  input = [];
  value = 0;
  gas_limit = 2 ^ 64 + 21000;
  gas_price = none;
  nonce = none;
  estimate = true;
}

little_gas : evm_call pallets 2 request [] ≡ (ok 21000, 21000 ∷ [])
unfolding evm_call
little_gas = refl

evm_call-evm_create_example :
    (used : EvmConfig) × (gas : ℕ) × Limits (2 ^ 64 + 21000) true pallets.config used gas
    × (evm_call pallets 2 request []
        ≡ map_err pallets.into_dispatch_error (pallets.call 1 2 [] 0 gas none none used []))
    × (evm_create pallets request []
        ≡ map_err pallets.into_dispatch_error (pallets.create 1 [] 0 gas none none used []))
evm_call-evm_create_example = evm_call-evm_create pallets 2 request []
