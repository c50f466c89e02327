-- ===== src/Staking/Types.antt =====
-- The data types of pallets/polkafoundry-staking/src/lib.rs. A balance is a `u128`, a round index, a
-- block number and a reward point a `u32`, each kept as a number below its bound. An account id is
-- the number that its bytes spell, so that the order of ids is the order of the numbers.
use polkafoundry.Base.{ℕ, Bool, true, false, List, compare, Ordering}

pub record SettingStruct : Type 0 where
  pub bond_duration : ℕ
  pub blocks_per_round : ℕ
  pub desired_target : ℕ

pub record UnlockChunk : Type 0 where
  pub value : ℕ
  pub round : ℕ

pub record UnBondChunk : Type 0 where
  pub value : ℕ
  pub round : ℕ

pub record Bond : Type 0 where
  pub owner : ℕ
  pub amount : ℕ

-- `Ord::cmp` of two bonds looks at the owners only, and so does `==`.
abbrev pub cmp : Bond → Bond → Ordering
cmp a b = compare a.owner b.owner

pub data StakerStatus : Type 0 where
  validator nominator active onboarding idle leaving : StakerStatus

-- `StakerStatus::default()`
abbrev pub default_status : StakerStatus
default_status = StakerStatus.onboarding

-- `self.status == StakerStatus::Active`
abbrev pub is_active_status : StakerStatus → Bool
is_active_status StakerStatus.active = true
is_active_status _ = false

-- `self.status == StakerStatus::Onboarding`
abbrev pub is_onboarding_status : StakerStatus → Bool
is_onboarding_status StakerStatus.onboarding = true
is_onboarding_status _ = false

pub record IndividualExposure : Type 0 where
  pub who : ℕ
  pub value : ℕ

pub record Exposure : Type 0 where
  pub total : ℕ
  pub own : ℕ
  pub others : List IndividualExposure

pub record Leaving : Type 0 where
  pub remaining : ℕ
  pub unbonding : List UnBondChunk
  pub when : ℕ

pub data Error : Type 0 where
  already_bonded already_in_queue bond_not_exist underflow bond_below_min nominate_below_min : Error
  candidate_not_exist too_many_candidates nomination_not_exist already_nominated_collator : Error
  too_many_nominations candidate_not_active already_leaving : Error

pub data Event : Type 0 where
  bonded bond_extra bond_less nominate nominate_extra nominate_less : ℕ → ℕ → Event
  candidate_onboard : ℕ → Event
  candidate_leaving nominator_leave_collator : ℕ → ℕ → Event
  collator_choosen : ℕ → ℕ → ℕ → Event
  rewarded : ℕ → ℕ → Event
  setting_changed : SettingStruct → Event
  new_round_start : ℕ → ℕ → Event
