-- ===== src/Crowdloan/Setup.antt =====
-- The start of a reward period: `initialize_reward` of pallets/crowdloan-rewards/src/lib.rs.
use polkafoundry.Base.{ℕ, Option, none, some, saturating_mul_u128}
use polkafoundry.Crowdloan.{RewardInfo}

-- The record of a contributor that starts at a block.
abbrev pub fresh : ℕ → ℕ → ℕ → RewardInfo
fresh now rate amount = record {
  total_reward = saturating_mul_u128 amount rate;
  claimed_reward = 0;
  last_paid = now;
}

abbrev pub listed : ℕ → ℕ → Option ℕ → Option RewardInfo → Option RewardInfo
listed now rate none old = old
listed now rate (some amount) old = some (fresh now rate amount)
