-- ===== src/Treasury.antt =====
-- pallets/treasury/src/lib.rs: donations to the treasury's account and allocations from it. The account
-- (`PalletId::into_account`) and the currency are parameters.
pub mod Flow
mod Tests
use polkafoundry.Base.{
  ℕ, ◌-◌, List, push, leb, Call, Origin, Failure, gets, modify, ensure, ok_or, ensure_root,
  ensure_signed, ◌>>=◌, ◌>>◌,
}
use polkafoundry.Currency.{Currency}

pub data Error : Type 0 where
  insufficient_balance scanty_amount failed_donation failed_allocation : Error

pub data Event : Type 0 where
  donation_received funds_allocated : ℕ → ℕ → ℕ → Event

pub record Config (L : Type 0) : Type 0 where
  pub currency : Currency L
  -- `T::PalletId::get().into_account()`
  pub account_id : ℕ

pub record Storage (L : Type 0) : Type 0 where
  pub balances : L
  pub events : List Event

abbrev pub Dispatch : Type 0 → Type 0
Dispatch L = Call (Storage L) (Failure Error) (Unit {0})

module _ {L : Type 0} (cfg : Config L) where
  unfoldable pub pot : Storage L → ℕ
  pot s = cfg.currency.free_balance cfg.account_id s.balances - cfg.currency.minimum_balance

  -- `transfer(from, to, amount, AllowDeath).map_err(..)?`
  abbrev pub transfer : ℕ → ℕ → ℕ → Error → Dispatch L
  transfer from to amount e = do
    s ← gets (λ s. s)
    l ← ok_or (cfg.currency.transfer from to amount s.balances) e
    modify (λ s. record s { balances = l })

  unfoldable pub donate : Origin → ℕ → Dispatch L
  unfolding pot
  donate origin amount = do
    sender ← ensure_signed origin
    ensure (leb cfg.currency.minimum_balance amount) scanty_amount
    transfer sender cfg.account_id amount failed_donation
    modify (λ s. record s { events = push s.events (donation_received sender amount (pot s)) })

  unfoldable pub allocate : Origin → ℕ → ℕ → Dispatch L
  unfolding pot
  allocate origin dest amount = do
    ensure_root origin
    ensure (leb cfg.currency.minimum_balance amount) scanty_amount
    transfer cfg.account_id dest amount failed_allocation
    modify (λ s. record s { events = push s.events (funds_allocated dest amount (pot s)) })
