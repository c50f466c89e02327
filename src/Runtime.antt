-- ===== src/Runtime.antt =====
-- The composition of the repository's pallets in runtime/halongbay/src/lib.rs, the one runtime that has both
-- the crowdloan pallet and the treasury pallet: the two share the balances pallet and the treasury's
-- account, from which rewards are paid as well. What the pallets of libraries do to the balances is an
-- arbitrary change.
pub mod Reports
pub mod Audit
pub mod Constants
pub mod Ethereum
mod Tests
use polkafoundry.Base.{ℕ, List, [], ◌∷◌, Bool, Origin}
use polkafoundry.Currency.{Currency}
use polkafoundry.Crowdloan.{
  initialize_reward, associate_account, update_associate_account, get_money,
}
use polkafoundry.Crowdloan
use polkafoundry.Treasury.{donate, allocate}
use polkafoundry.Treasury

-- `Call` of `construct_runtime!`, for the pallets of the repository.
pub data RuntimeCall (Proof : Type 0) : Type 0 where
  crowdloan_initialize_reward : List (ℕ × ℕ) → ℕ → ℕ → RuntimeCall Proof
  crowdloan_associate_account : ℕ → Proof → RuntimeCall Proof
  crowdloan_update_associate_account : ℕ → ℕ → Proof → RuntimeCall Proof
  crowdloan_get_money : RuntimeCall Proof
  treasury_donate : ℕ → RuntimeCall Proof
  treasury_allocate : ℕ → ℕ → RuntimeCall Proof

pub record RuntimeConfig (L Proof : Type 0) : Type 0 where
  pub currency : Currency L
  -- `TreasuryPalletId::get().into_account()`
  pub treasury_account : ℕ
  pub verify : Proof → ℕ → ℕ → Bool

-- The storage of the chain: that of the crowdloan pallet, with the balances that both pallets see, and the
-- events of the treasury pallet.
pub record Chain (L : Type 0) : Type 0 where
  pub crowdloan : Crowdloan.Storage L
  pub treasury_events : List Treasury.Event

module _ {L Proof : Type 0} (cfg : RuntimeConfig L Proof) where
  abbrev pub crowdloan_config : Crowdloan.Config L Proof
  crowdloan_config = record {
    currency = cfg.currency;
    account_id = cfg.treasury_account;
    verify = cfg.verify;
  }

  abbrev pub treasury_config : Treasury.Config L
  treasury_config = record { currency = cfg.currency; account_id = cfg.treasury_account }

module _ {L : Type 0} where
  abbrev pub treasury_storage : Chain L → Treasury.Storage L
  treasury_storage c = record { balances = c.crowdloan.balances; events = c.treasury_events }

  abbrev pub with_crowdloan : Chain L → Crowdloan.Storage L → Chain L
  with_crowdloan c s = record c { crowdloan = s }

  abbrev pub with_treasury : Chain L → Treasury.Storage L → Chain L
  with_treasury c s = record {
    crowdloan = record c.crowdloan { balances = s.balances };
    treasury_events = s.events;
  }

module _ {L Proof : Type 0} (cfg : RuntimeConfig L Proof) where
  -- The storage after a call, which is also kept after an error.
  unfoldable pub dispatch : Origin → RuntimeCall Proof → Chain L → Chain L
  unfolding initialize_reward associate_account update_associate_account get_money donate allocate
  dispatch o (crowdloan_initialize_reward contributions rate end_block) c =
      with_crowdloan c
        (initialize_reward (crowdloan_config cfg) o contributions rate end_block c.crowdloan).1
  dispatch o (crowdloan_associate_account relay proof) c =
      with_crowdloan c (associate_account (crowdloan_config cfg) o relay proof c.crowdloan).1
  dispatch o (crowdloan_update_associate_account native relay proof) c =
      with_crowdloan c
        (update_associate_account (crowdloan_config cfg) o native relay proof c.crowdloan).1
  dispatch o crowdloan_get_money c =
      with_crowdloan c (get_money (crowdloan_config cfg) o c.crowdloan).1
  dispatch o (treasury_donate amount) c =
      with_treasury c (donate (treasury_config cfg) o amount (treasury_storage c)).1
  dispatch o (treasury_allocate dest amount) c =
      with_treasury c (allocate (treasury_config cfg) o dest amount (treasury_storage c)).1

-- What happens to the chain: a call, a new block, or a change of the balances by a pallet of a library.
pub data Happening (L Proof : Type 0) : Type 0 where
  extrinsic : Origin → RuntimeCall Proof → Happening L Proof
  new_block : ℕ → Happening L Proof
  elsewhere : (L → L) → Happening L Proof

module _ {L Proof : Type 0} (cfg : RuntimeConfig L Proof) where
  unfoldable pub happen : Happening L Proof → Chain L → Chain L
  unfolding dispatch
  happen (extrinsic o call) c = dispatch cfg o call c
  happen (new_block now) c = with_crowdloan c (record c.crowdloan { block_number = now })
  happen (elsewhere f) c =
      with_crowdloan c (record c.crowdloan { balances = f c.crowdloan.balances })

  unfoldable pub happen_all : List (Happening L Proof) → Chain L → Chain L
  happen_all [] c = c
  happen_all (h ∷ hs) c = happen_all hs (happen h c)
