-- ===== src/Staking/Inflation/Rate.antt =====
-- Bounds on the inflation rate and on the payout of a round.
use polkafoundry.Base.{ℕ, ◌+◌, ◌-◌, ◌≤◌, ◌<◌, ◌≡◌, arith, Option, none, some, le→leb, ap}
use polkafoundry.PerThing.{PerThing, IsPerThing}
use polkafoundry.BigUint.{BigUint}
use polkafoundry.Staking.Taylor.{compute_inflation, checked_parts}
use polkafoundry.Staking.Inflation.{compute_i_npos, compute_total_payout, milliseconds_per_year}

module _ {B : Type 0} (u : BigUint B) (per : PerThing) (law : IsPerThing per) where
  checked_parts-le : (o : Option ℕ) → checked_parts u per o ≤ per.accuracy
  unfolding checked_parts
  checked_parts-le none = omega arith
  checked_parts-le (some n) = ground arith

  -- The inflation factor is a fraction: it is never more than one.
  pub compute_inflation-le : (x x_ideal d : ℕ) → compute_inflation u per x x_ideal d ≤ per.accuracy
  unfolding compute_inflation
  compute_inflation-le x x_ideal d = grind (arith, law.quotient-le x x_ideal, checked_parts-le)

  -- For fractions `i_0`, `i_ideal` and `x_ideal` the yearly rate lies between `i_0` and the larger
  -- of `i_0` and `i_ideal * x_ideal`.
  pub compute_i_npos_bounds :
      (i_0 i_ideal x x_ideal d : ℕ)
      → i_0 ≤ per.accuracy
      → i_ideal ≤ per.accuracy
      → x_ideal ≤ per.accuracy
      → (i_0 ≤ compute_i_npos u per i_0 i_ideal x x_ideal d)
        × (compute_i_npos u per i_0 i_ideal x x_ideal d ≤ i_0 + (per.times i_ideal x_ideal - i_0))
  unfolding compute_i_npos
  compute_i_npos_bounds i_0 i_ideal x x_ideal d h k l =
      let f = compute_inflation u per x x_ideal d in
      let ideal = per.times i_ideal x_ideal in
      omega (
        arith,
        compute_inflation-le x x_ideal d,
        law.times-le_left i_ideal x_ideal k l,
        law.saturating_sub_lem ideal i_0,
        law.times-le_left (per.saturating_sub ideal i_0) f,
        law.saturating_add_lem i_0 (per.times (per.saturating_sub ideal i_0) f),
      )

  compute_inflation_ideal :
      (x d : ℕ) → 0 < x → x ≤ per.accuracy → compute_inflation u per x x d ≡ per.accuracy
  unfolding compute_inflation
  compute_inflation_ideal x d pos l = rw (le→leb x x (omega arith)) (law.quotient-self x pos l)

  -- At the ideal stake the yearly rate is the larger of `i_0` and `i_ideal * x_ideal`.
  pub compute_i_npos_ideal :
      (i_0 i_ideal x_ideal d : ℕ)
      → i_0 ≤ per.accuracy
      → i_ideal ≤ per.accuracy
      → x_ideal ≤ per.accuracy
      → 0 < x_ideal
      → compute_i_npos u per i_0 i_ideal x_ideal x_ideal d ≡ i_0 + (per.times i_ideal x_ideal - i_0)
  unfolding compute_i_npos
  compute_i_npos_ideal i_0 i_ideal x_ideal d h k l pos =
      let ideal = per.times i_ideal x_ideal in
      let room = per.saturating_sub ideal i_0 in
      let f = compute_inflation u per x_ideal x_ideal d in
      omega (
        arith,
        law.times-le_left i_ideal x_ideal k l,
        law.saturating_sub_lem ideal i_0,
        ap (per.times room) (compute_inflation_ideal x_ideal d pos l),
        law.times-one room,
        law.saturating_add_lem i_0 (per.times room f),
      )

  compute_i_npos-le :
      (i_0 i_ideal x x_ideal d : ℕ) → compute_i_npos u per i_0 i_ideal x x_ideal d ≤ per.accuracy
  unfolding compute_i_npos
  compute_i_npos-le i_0 i_ideal x x_ideal d = omega (arith, law.saturating_add_lem i_0)

  -- The payout that `compute_total_payout` computes for a round is at most the issuance.
  compute_total_payout-le :
      (staked issuance i_0 i_ideal x_ideal d duration : ℕ)
      → compute_total_payout u per staked issuance i_0 i_ideal x_ideal d duration ≤ issuance
  unfolding compute_total_payout
  compute_total_payout-le staked issuance i_0 i_ideal x_ideal d duration =
      let rate =
        compute_i_npos u per (per.from_rational i_0 1000) (per.from_rational i_ideal 100)
          (per.from_rational staked issuance) (per.from_rational x_ideal 100)
          (per.from_rational d 100) in
      let portion = per.from_rational duration milliseconds_per_year in
      omega (
        arith,
        law.from_rational-le duration milliseconds_per_year,
        law.mul-le rate issuance (
            compute_i_npos-le (per.from_rational i_0 1000) (per.from_rational i_ideal 100)
              (per.from_rational staked issuance) (per.from_rational x_ideal 100)
              (per.from_rational d 100)),
        law.mul-le portion (per.mul rate issuance),
      )
