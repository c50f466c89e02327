-- ===== src/Staking/Inflation.antt =====
-- pallets/polkafoundry-staking/src/inflation.rs: the payout of a round from the stake and the issuance.
pub mod Rate
use polkafoundry.Base.{ℕ}
use polkafoundry.PerThing.{PerThing}
use polkafoundry.BigUint.{BigUint}
use polkafoundry.Staking.Taylor.{compute_inflation}

-- Milliseconds of a Julian year: 1000 * 3600 * 24 * 36525 / 100.
abbrev pub milliseconds_per_year : ℕ
milliseconds_per_year = 31557600000

module _ {B : Type 0} (u : BigUint B) (per : PerThing) where
  unfoldable pub compute_i_npos : ℕ → ℕ → ℕ → ℕ → ℕ → ℕ
  compute_i_npos i_0 i_ideal x x_ideal d =
      let i_npos_ideal = per.times i_ideal x_ideal in
      per.saturating_add i_0
        (per.times (per.saturating_sub i_npos_ideal i_0) (compute_inflation u per x x_ideal d))

  unfoldable pub compute_total_payout : ℕ → ℕ → ℕ → ℕ → ℕ → ℕ → ℕ → ℕ
  compute_total_payout npos_token_staked total_tokens i_0 i_ideal x_ideal d round_duration =
      let i_0' = per.from_rational i_0 1000 in
      let i_ideal' = per.from_rational i_ideal 100 in
      let x = per.from_rational npos_token_staked total_tokens in
      let x_ideal' = per.from_rational x_ideal 100 in
      let d' = per.from_rational d 100 in
      let portion = per.from_rational round_duration milliseconds_per_year in
      per.mul portion (per.mul (compute_i_npos i_0' i_ideal' x x_ideal' d') total_tokens)
