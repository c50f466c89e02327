-- ===== src/Staking/Payout.antt =====
-- `payout_stakers` of pallets/polkafoundry-staking/src/lib.rs: the rewards of the round that lies the
-- payout duration back.
pub mod Once
use polkafoundry.Base.{
  ℕ, Option, none, some, List, [], ◌∷◌, Map, lookup_or, erase, ltb, mul_u32, sub_u32, add_u128,
  if◌then◌else◌,
}
use polkafoundry.PerThing.{PerThing}
use polkafoundry.BigUint.{BigUint}
use polkafoundry.Staking.Types.{Exposure, IndividualExposure, Event}
use polkafoundry.Staking.State.{Config, Storage, deposit_event}
use polkafoundry.Staking.Inflation.{compute_total_payout}

module _ {L : Type 0} (cfg : Config L) where
  -- `deposit_into_existing(to, amount)`; the event reports the imbalance.
  unfoldable pub deposit : ℕ → Option (ℕ × L) → Storage L → Storage L
  deposit to none s = s
  deposit to (some (peek, l)) s = deposit_event (Event.rewarded to peek) (record s { balances = l })

  -- The closure `mint`.
  unfoldable pub mint : ℕ → ℕ → Storage L → Storage L
  unfolding deposit
  mint amount to s =
      if ltb cfg.currency.minimum_balance amount
      then deposit to (cfg.currency.deposit_into_existing to amount s.balances) s
      else s

module _ {L : Type 0} (cfg : Config L) (per : PerThing) where
  unfoldable pub nominator_reward : ℕ → ℕ → IndividualExposure → ℕ
  nominator_reward total_stake payout e = per.mul (per.from_rational e.value total_stake) payout

  unfoldable pub pay_nominators : ℕ → ℕ → List IndividualExposure → Storage L → Storage L
  unfolding mint nominator_reward
  pay_nominators total_stake payout [] s = s
  pay_nominators total_stake payout (e ∷ es) s =
      pay_nominators total_stake payout es
        (mint cfg (nominator_reward total_stake payout e) e.who s)

  -- The exposure part and the commission part of a collator: half of each.
  unfoldable pub collator_reward : ℕ → ℕ → ℕ → ℕ → ℕ → ℕ
  collator_reward total_stake payout total_points point own =
      let half = per.from_rational 50 100 in
      let exposure_part = per.times half (per.from_rational own total_stake) in
      let commission_part = per.times half (per.from_rational point total_points) in
      add_u128 (per.mul exposure_part payout) (per.mul commission_part payout)

  -- The loop over the drained exposures of the payout round.
  unfoldable pub pay_collators : ℕ → ℕ → ℕ → Map ℕ → Map Exposure → Storage L → Storage L
  unfolding mint pay_nominators collator_reward
  pay_collators total_stake payout total_points points [] s = s
  pay_collators total_stake payout total_points points ((acc, exposure) ∷ rest) s =
      let point = lookup_or 0 acc points in
      let paid =
        mint cfg (collator_reward total_stake payout total_points point exposure.own) acc s in
      pay_collators total_stake payout total_points points rest
        (pay_nominators total_stake payout exposure.others paid)

module _ {L B : Type 0} (cfg : Config L) (per : PerThing) (u : BigUint B) where
  unfoldable pub round_payout : ℕ → ℕ → ℕ
  round_payout total_stake total_issuance =
      compute_total_payout u per total_stake total_issuance 25 20 50 5
        (mul_u32 cfg.blocks_per_round 6000)

  -- The body of `payout_stakers` for the payout round.
  unfoldable pub pay_round : ℕ → Storage L → Storage L
  unfolding pay_collators round_payout
  pay_round payout_round s =
      let total_stake = lookup_or 0 payout_round s.total_staked_at in
      let total_issuance = lookup_or 0 payout_round s.total_issuance_at in
      pay_collators cfg per total_stake (round_payout total_stake total_issuance)
        (lookup_or 0 payout_round s.total_points) (lookup_or [] payout_round s.collator_points)
        (lookup_or [] payout_round s.round_staker_clipped)
        (record s { round_staker_clipped = erase payout_round s.round_staker_clipped })

  unfoldable pub payout_stakers : ℕ → Storage L → Storage L
  unfolding pay_round
  payout_stakers current_round s =
      if ltb cfg.payout_duration current_round
      then pay_round (sub_u32 current_round cfg.payout_duration) s
      else s
