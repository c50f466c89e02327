-- ===== src/Staking/Issuance/Rewards.antt =====
-- The payout of a round against the total issuance.
use polkafoundry.Base.{
  ℕ, refl, arith, List, [], ◌∷◌, Map, lookup_or, erase, sum_of-push, sub_u32, Option-cases, inl,
  inr,
}
use polkafoundry.Currency.{IssuanceCounts}
use polkafoundry.PerThing.{PerThing}
use polkafoundry.BigUint.{BigUint}
use polkafoundry.Staking.Types.{Event, Exposure, IndividualExposure}
use polkafoundry.Staking.State.{Config, Storage}
use polkafoundry.Staking.Payout.{
  deposit, mint, nominator_reward, pay_nominators, collator_reward, pay_collators, pay_round,
  round_payout, payout_stakers,
}
use polkafoundry.Staking.Issuance.{rewarded, Accounted, Accounted-trans}

module _ {L : Type 0} (cfg : Config L) (law : IssuanceCounts cfg.currency) where
  mint-Accounted : (amount to : ℕ) (s : Storage L) → Accounted cfg s (mint cfg amount to s)
  unfolding mint deposit
  mint-Accounted amount to s =
      elim (Option-cases (cfg.currency.deposit_into_existing to amount s.balances)) [
        | inl e ↦ ground arith
        | inr ((y, l), e) ↦ ground (
          arith,
          law.deposit_adds to amount y s.balances l e,
          sum_of-push rewarded s.events (Event.rewarded to y),
        )
      ]

  pay_nominators-Accounted :
      (per : PerThing) (t p : ℕ) (es : List IndividualExposure) (s : Storage L)
      → Accounted cfg s (pay_nominators cfg per t p es s)
  unfolding pay_nominators
  pay_nominators-Accounted per t p [] s = refl
  pay_nominators-Accounted per t p (e ∷ es) s =
      let once = mint cfg (nominator_reward cfg per t p e) e.who s in
      Accounted-trans cfg s once (pay_nominators cfg per t p es once)
        (mint-Accounted (nominator_reward cfg per t p e) e.who s)
        (pay_nominators-Accounted per t p es once)

  pay_collators-Accounted :
      (per : PerThing) (t p tp : ℕ) (points : Map ℕ) (es : Map Exposure) (s : Storage L)
      → Accounted cfg s (pay_collators cfg per t p tp points es s)
  unfolding pay_collators
  pay_collators-Accounted per t p tp points [] s = refl
  pay_collators-Accounted per t p tp points ((a, e) ∷ es) s =
      let reward = collator_reward cfg per t p tp (lookup_or 0 a points) e.own in
      let own = mint cfg reward a s in
      let all = pay_nominators cfg per t p e.others own in
      Accounted-trans cfg s own (pay_collators cfg per t p tp points es all)
        (mint-Accounted reward a s)
        (Accounted-trans cfg own all (pay_collators cfg per t p tp points es all)
          (pay_nominators-Accounted per t p e.others own)
          (pay_collators-Accounted per t p tp points es all))

  pub payout_stakers-Accounted :
      {B : Type 0} (per : PerThing) (u : BigUint B) (r : ℕ) (s : Storage L)
      → Accounted cfg s (payout_stakers cfg per u r s)
  unfolding payout_stakers pay_round
  payout_stakers-Accounted per u r s =
      let paid = sub_u32 r cfg.payout_duration in
      let total = lookup_or 0 paid s.total_staked_at in
      ground (
        arith,
        pay_collators-Accounted per total
            (round_payout cfg per u total (lookup_or 0 paid s.total_issuance_at))
            (lookup_or 0 paid s.total_points) (lookup_or [] paid s.collator_points)
            (lookup_or [] paid s.round_staker_clipped)
            (record s { round_staker_clipped = erase paid s.round_staker_clipped }),
      )
