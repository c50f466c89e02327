-- ===== src/Crowdloan.antt =====
-- pallets/crowdloan-rewards/src/lib.rs: rewards of crowdloan contributors, paid out block by block. An
-- account of the relay chain is a number like a native one; the signature check is a parameter. A balance
-- is a `u128` and a block number a `u32`, so that the conversions of block numbers never fail; the
-- division by the reward period panics if that is zero.
pub mod Paying
pub mod Accounts
pub mod Setup
pub mod Vesting
pub mod Reach
mod Tests
use polkafoundry.Base.{
  ℕ, ◌-◌, ◌/◌, Bool, true, false, Option, none, some, List, [], ◌∷◌, Map, lookup, insert, erase,
  push, ltb, leb, ◌==◌, sub_u32, sub_u128, saturating_add_u128, saturating_mul_u128, Call, Origin,
  Failure, gets, modify, ensure, panic_if, ok_or, ensure_root, ensure_signed, if◌then◌else◌, ◌>>=◌,
  ◌>>◌,
}
use polkafoundry.Currency.{Currency}

pub data Error : Type 0 where
  invalid_end_block already_init_reward invalid_signature already_associated already_paid : Error
  no_associated_account not_contributed_yet bad_relay_account : Error
  wrong_conversion_u128_to_balance reward_failed scanty_reward : Error

pub data Event : Type 0 where
  associated_account update_associated_account reward_paid : ℕ → ℕ → Event

pub record RewardInfo : Type 0 where
  pub total_reward : ℕ
  pub claimed_reward : ℕ
  pub last_paid : ℕ

pub record Config (L Proof : Type 0) : Type 0 where
  pub currency : Currency L
  -- the treasury's account, from which rewards are paid
  pub account_id : ℕ
  -- `proof.verify(who.encode(), relay_account)`
  pub verify : Proof → ℕ → ℕ → Bool

pub record Storage (L : Type 0) : Type 0 where
  pub balances : L
  pub block_number : ℕ
  pub contributors : Map RewardInfo
  pub associated_accounts : Map ℕ
  pub current_reward_end_in : ℕ
  pub reward_period : ℕ
  pub events : List Event

abbrev pub Dispatch : Type 0 → Type 0
Dispatch L = Call (Storage L) (Failure Error) (Unit {0})

abbrev pub is_none : {A : Type 0} → Option A → Bool
is_none none = true
is_none (some _) = false

-- The loop of `initialize_reward`.
unfoldable pub add_contributors : ℕ → ℕ → List (ℕ × ℕ) → Map RewardInfo → Map RewardInfo
add_contributors now rate [] m = m
add_contributors now rate ((account, amount) ∷ rest) m = add_contributors now rate rest (
    insert account
      (record {
        total_reward = saturating_mul_u128 amount rate;
        claimed_reward = 0;
        last_paid = now;
      })
      m)

-- The amount of `get_money`: what the blocks since the last payment earn, at most what is left.
unfoldable pub amount_due : ℕ → ℕ → RewardInfo → ℕ
amount_due period now info =
    let reward_per_block = info.total_reward / period in
    let earned = saturating_mul_u128 reward_per_block (now - info.last_paid) in
    let left = sub_u128 info.total_reward info.claimed_reward in
    if ltb left earned then left else earned

unfoldable pub paid : ℕ → ℕ → RewardInfo → RewardInfo
unfolding amount_due
paid period now info = record info {
  last_paid = now;
  claimed_reward = saturating_add_u128 info.claimed_reward (amount_due period now info);
}

module _ {L Proof : Type 0} (cfg : Config L Proof) where
  unfoldable pub initialize_reward : Origin → List (ℕ × ℕ) → ℕ → ℕ → Dispatch L
  unfolding add_contributors
  initialize_reward origin contributions rate end_block = do
    ensure_root origin
    s ← gets (λ s. s)
    let now = s.block_number
    ensure (ltb now end_block) invalid_end_block
    ensure (leb s.current_reward_end_in now) already_init_reward
    modify (λ s. record s { contributors = add_contributors now rate contributions s.contributors })
    modify (λ s. record s { current_reward_end_in = end_block })
    modify (λ s. record s { reward_period = sub_u32 end_block now })

  unfoldable pub associate_account : Origin → ℕ → Proof → Dispatch L
  associate_account origin relay_account proof = do
    who ← ensure_signed origin
    ensure (cfg.verify proof who relay_account) invalid_signature
    s ← gets (λ s. s)
    ensure (is_none (lookup who s.associated_accounts)) already_associated
    modify (λ s. record s { associated_accounts = insert who relay_account s.associated_accounts })
    modify (λ s. record s { events = push s.events (associated_account who relay_account) })

  unfoldable pub update_associate_account : Origin → ℕ → ℕ → Proof → Dispatch L
  update_associate_account origin native_account relay_account proof = do
    who ← ensure_signed origin
    ensure (cfg.verify proof who relay_account) invalid_signature
    s ← gets (λ s. s)
    ensure (is_none (lookup who s.associated_accounts)) already_associated
    relay ← ok_or (lookup native_account s.associated_accounts) no_associated_account
    ensure (relay_account == relay) bad_relay_account
    modify (λ s. record s { associated_accounts = erase native_account s.associated_accounts })
    modify (λ s. record s { associated_accounts = insert who relay_account s.associated_accounts })
    modify (λ s. record s { events = push s.events (update_associated_account who relay_account) })

  unfoldable pub get_money : Origin → Dispatch L
  unfolding paid amount_due
  get_money origin = do
    who ← ensure_signed origin
    s ← gets (λ s. s)
    let now = s.block_number
    relay_account ← ok_or (lookup who s.associated_accounts) no_associated_account
    info ← ok_or (lookup relay_account s.contributors) not_contributed_yet
    ensure (ltb info.claimed_reward info.total_reward) already_paid
    panic_if (s.reward_period == 0)
    let amount = amount_due s.reward_period now info
    modify (λ s. record s {
      contributors = insert relay_account (paid s.reward_period now info) s.contributors;
    })
    ensure (leb cfg.currency.minimum_balance amount) scanty_reward
    l ← ok_or (cfg.currency.transfer cfg.account_id who amount s.balances) reward_failed
    modify (λ s. record s { balances = l })
    modify (λ s. record s { events = push s.events (reward_paid who amount) })
