-- ===== src/Staking/State.antt =====
-- The storage of pallets/polkafoundry-staking/src/lib.rs with its configuration, and the single writes
-- that the calls are made of. `L` is the type of the balances that the currency keeps. (The storage
-- version is written by nothing and left out.)
use polkafoundry.Base.{
  ℕ, Bool, true, false, Option, none, some, List, push, Map, insert, erase, add_u32, add_u128, Call,
  Failure,
}
use polkafoundry.Currency.{Currency}
use polkafoundry.Staking.Types.{Exposure, Leaving, SettingStruct, Error, Event}
use polkafoundry.Staking.Round.{RoundInfo}
use polkafoundry.Staking.Collator.{StakingCollators}
use polkafoundry.Staking.Nominator.{StakingNominators}

-- `pallet::Config`, without the election provider.
pub record Config (L : Type 0) : Type 0 where
  pub currency : Currency L
  pub blocks_per_round : ℕ
  pub max_nominations_per_collator : ℕ
  pub bond_duration : ℕ
  pub min_collator_stake : ℕ
  pub min_nominator_stake : ℕ
  pub payout_duration : ℕ
  pub desired_target : ℕ
  -- `CurrencyToVote`, with the total issuance as its second argument.
  pub to_vote : ℕ → ℕ → ℕ
  pub to_currency : ℕ → ℕ → ℕ

pub record Storage (L : Type 0) : Type 0 where
  pub balances : L
  pub current_round : RoundInfo
  pub collators : Map StakingCollators
  pub exit_queue : Map Leaving
  pub total_staked : ℕ
  pub settings : SettingStruct
  pub total_staked_at : Map ℕ
  pub total_issuance_at : Map ℕ
  pub nominators : Map StakingNominators
  pub round_staker_clipped : Map (Map Exposure)
  pub total_points : Map ℕ
  pub collator_points : Map (Map ℕ)
  pub events : List Event

abbrev pub is_none {ℓ} : {A : Type ℓ} → Option A → Bool
is_none none = true
is_none (some _) = false

module _ {L : Type 0} where
  abbrev pub put_collator : ℕ → StakingCollators → Storage L → Storage L
  put_collator who c s = record s { collators = insert who c s.collators }

  abbrev pub remove_collator : ℕ → Storage L → Storage L
  remove_collator who s = record s { collators = erase who s.collators }

  abbrev pub put_nominator : ℕ → StakingNominators → Storage L → Storage L
  put_nominator who n s = record s { nominators = insert who n s.nominators }

  abbrev pub put_exit : ℕ → Leaving → Storage L → Storage L
  put_exit who e s = record s { exit_queue = insert who e s.exit_queue }

  abbrev pub remove_exit : ℕ → Storage L → Storage L
  remove_exit who s = record s { exit_queue = erase who s.exit_queue }

  -- `TotalStaked::put(current_staked + amount)`
  abbrev pub add_staked : ℕ → Storage L → Storage L
  add_staked amount s = record s { total_staked = add_u128 s.total_staked amount }

  abbrev pub put_staked : ℕ → Storage L → Storage L
  put_staked total s = record s { total_staked = total }

  abbrev pub deposit_event : Event → Storage L → Storage L
  deposit_event e s = record s { events = push s.events e }

module _ {L : Type 0} (c : Currency L) where
  -- `T::Currency::reserve(who, amount);` drops the result: an error leaves the balances as they are.
  abbrev pub reserve_balance : ℕ → ℕ → L → L
  reserve_balance who amount l = elim (c.reserve who amount l) [ none ↦ l | some l' ↦ l' ]

  abbrev pub reserve : ℕ → ℕ → Storage L → Storage L
  reserve who amount s = record s { balances = reserve_balance who amount s.balances }

  abbrev pub unreserve : ℕ → ℕ → Storage L → Storage L
  unreserve who amount s = record s { balances = (c.unreserve who amount s.balances).1 }

-- A dispatchable of the pallet.
abbrev pub Dispatch : Type 0 → Type 0
Dispatch L = Call (Storage L) (Failure Error) (Unit {0})

-- `current_round.index + Settings::get().bond_duration`
abbrev pub withdraw_round : {L : Type 0} → Storage L → ℕ
withdraw_round s = add_u32 s.current_round.index s.settings.bond_duration
