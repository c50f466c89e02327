-- ===== src/Staking/Payout/Once.antt =====
-- `payout_stakers` of pallets/polkafoundry-staking/src/lib.rs and the exposures that it drains.
use polkafoundry.Base.{
  ℕ, ◌≡◌, refl, arith, List, [], ◌∷◌, Map, lookup_or, erase, lookup-erase, sub_u32, ltb, Bool-cases,
  inl, inr, ap, ◌∙◌,
}
use polkafoundry.PerThing.{PerThing}
use polkafoundry.BigUint.{BigUint}
use polkafoundry.Staking.Types.{Exposure, IndividualExposure}
use polkafoundry.Staking.State.{Config, Storage}
use polkafoundry.Staking.Payout.{
  deposit, mint, pay_nominators, pay_collators, round_payout, pay_round, payout_stakers,
}

erase_twice : {V : Type 0} (k : ℕ) (m : Map V) → erase k (erase k m) ≡ erase k m
erase_twice k [] = refl
erase_twice k ((j, v) ∷ m) = ground (arith, erase_twice k m)

lookup_or-erase : {V : Type 0} (k : ℕ) (m : Map (List V)) → lookup_or [] k (erase k m) ≡ []
lookup_or-erase k m = ground (arith, lookup-erase k k m)

module _ {L : Type 0} (cfg : Config L) where
  mint-drained :
      (amount to : ℕ) (s : Storage L)
      → (mint cfg amount to s).round_staker_clipped ≡ s.round_staker_clipped
  unfolding mint deposit
  mint-drained amount to s = ground arith

  pay_nominators-drained :
      (per : PerThing) (t p : ℕ) (es : List IndividualExposure) (s : Storage L)
      → (pay_nominators cfg per t p es s).round_staker_clipped ≡ s.round_staker_clipped
  unfolding pay_nominators
  pay_nominators-drained per t p [] s = refl
  pay_nominators-drained per t p (e ∷ es) s =
      pay_nominators-drained per t p es _ ∙ mint-drained _ e.who s

  pay_collators-drained :
      (per : PerThing) (t p tp : ℕ) (points : Map ℕ) (es : Map Exposure) (s : Storage L)
      → (pay_collators cfg per t p tp points es s).round_staker_clipped ≡ s.round_staker_clipped
  unfolding pay_collators
  pay_collators-drained per t p tp points [] s = refl
  pay_collators-drained per t p tp points ((a, e) ∷ es) s =
      pay_collators-drained per t p tp points es _
      ∙ pay_nominators-drained per t p e.others _
      ∙ mint-drained _ a s

  -- Without exposures of the round, the payout of it changes nothing.
  pay_round_empty :
      {B : Type 0} (per : PerThing) (u : BigUint B) (r : ℕ) (s : Storage L)
      → lookup_or [] r s.round_staker_clipped ≡ []
      → erase r s.round_staker_clipped ≡ s.round_staker_clipped
      → pay_round cfg per u r s ≡ s
  unfolding pay_round pay_collators
  pay_round_empty per u r s h k =
      let total_stake = lookup_or 0 r s.total_staked_at in
      let payout = round_payout cfg per u total_stake (lookup_or 0 r s.total_issuance_at) in
      let points = lookup_or [] r s.collator_points in
      let drained : Storage L = record s {
        round_staker_clipped = erase r s.round_staker_clipped;
      } in
      ap
        (λ es.
          pay_collators cfg per total_stake payout (lookup_or 0 r s.total_points) points es drained)
        h
      ∙ ap (λ m. record s { round_staker_clipped = m }) k

  pay_round-drained :
      {B : Type 0} (per : PerThing) (u : BigUint B) (r : ℕ) (s : Storage L)
      → (pay_round cfg per u r s).round_staker_clipped ≡ erase r s.round_staker_clipped
  unfolding pay_round
  pay_round-drained per u r s =
      pay_collators-drained per _ _ _ (lookup_or [] r s.collator_points)
        (lookup_or [] r s.round_staker_clipped)
        (record s { round_staker_clipped = erase r s.round_staker_clipped })

  -- `payout_stakers` pays a round once: called again for the same round, it changes nothing, neither
  -- balances nor events.
  pub payout_stakers_twice :
      {B : Type 0} (per : PerThing) (u : BigUint B) (r : ℕ) (s : Storage L)
      → payout_stakers cfg per u r (payout_stakers cfg per u r s) ≡ payout_stakers cfg per u r s
  unfolding payout_stakers
  payout_stakers_twice per u r s = elim (Bool-cases (ltb cfg.payout_duration r)) [
    | inr early ↦ rw early refl
    | inl due ↦
        let p = sub_u32 r cfg.payout_duration in
        let t = pay_round cfg per u p s in
        let e = pay_round-drained per u p s in
        rw due (
          pay_round_empty per u p t
            (ap (lookup_or [] p) e ∙ lookup_or-erase p s.round_staker_clipped)
            (rw e (erase_twice p s.round_staker_clipped)))
  ]
