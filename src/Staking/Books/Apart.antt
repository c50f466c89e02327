-- ===== src/Staking/Books/Apart.antt =====
-- The steps of `on_finalize` that leave the ledgers of the nominators alone
-- (pallets/polkafoundry-staking/src/lib.rs): all but `update_nominators`.
use polkafoundry.Base.{
  ℕ, ◌≡◌, refl, arith, Option, List, [], ◌∷◌, Map, ltb, lookup_or, erase, sub_u32, if◌then◌else◌,
  Option-cases, inl, inr, ◌∙◌,
}
use polkafoundry.PerThing.{PerThing}
use polkafoundry.BigUint.{BigUint}
use polkafoundry.Staking.Types.{Exposure, IndividualExposure, UnBondChunk, Leaving}
use polkafoundry.Staking.Collator.{StakingCollators}
use polkafoundry.Staking.State.{Config, Storage}
use polkafoundry.Staking.Payout.{
  deposit, mint, pay_nominators, pay_collators, round_payout, pay_round, payout_stakers,
}
use polkafoundry.Staking.Updates.{
  update_each_collator, update_collators, update_nominators, pay_out, pay_due, pay_all,
  execute_exit, execute_each_exit, execute_exit_queue,
}
use polkafoundry.Staking.Election.{
  Supports, record_exposures, collect_exposures, process_election, enact_election,
}
use polkafoundry.Staking.RoundEnd.{start_round}

abbrev pub Apart : {L : Type 0} → Storage L → Storage L → Type 0
Apart s t = t.nominators ≡ s.nominators

module _ {L : Type 0} (cfg : Config L) where
  mint-Apart : (amount to : ℕ) (s : Storage L) → Apart s (mint cfg amount to s)
  unfolding mint deposit
  mint-Apart amount to s = ground arith

  pay_nominators-Apart :
      (per : PerThing) (t p : ℕ) (es : List IndividualExposure) (s : Storage L)
      → Apart s (pay_nominators cfg per t p es s)
  unfolding pay_nominators
  pay_nominators-Apart per t p [] s = refl
  pay_nominators-Apart per t p (e ∷ es) s = pay_nominators-Apart per t p es _ ∙ mint-Apart _ e.who s

  pay_collators-Apart :
      (per : PerThing) (t p tp : ℕ) (points : Map ℕ) (es : Map Exposure) (s : Storage L)
      → Apart s (pay_collators cfg per t p tp points es s)
  unfolding pay_collators
  pay_collators-Apart per t p tp points [] s = refl
  pay_collators-Apart per t p tp points ((a, e) ∷ es) s =
      pay_collators-Apart per t p tp points es _
      ∙ pay_nominators-Apart per t p e.others _
      ∙ mint-Apart _ a s

  pay_round-Apart :
      {B : Type 0} (per : PerThing) (u : BigUint B) (r : ℕ) (s : Storage L)
      → Apart s (pay_round cfg per u r s)
  unfolding pay_round
  pay_round-Apart per u r s =
      let total_stake = lookup_or 0 r s.total_staked_at in
      pay_collators-Apart per total_stake
        (round_payout cfg per u total_stake (lookup_or 0 r s.total_issuance_at))
        (lookup_or 0 r s.total_points) (lookup_or [] r s.collator_points)
        (lookup_or [] r s.round_staker_clipped)
        (record s { round_staker_clipped = erase r s.round_staker_clipped })

  payout_stakers-Apart :
      {B : Type 0} (per : PerThing) (u : BigUint B) (r : ℕ) (s : Storage L)
      → Apart s (payout_stakers cfg per u r s)
  unfolding payout_stakers
  payout_stakers-Apart per u r s =
      ground (arith, pay_round-Apart per u (sub_u32 r cfg.payout_duration) s)

  update_collators-Apart :
      (r : ℕ) (es : Map StakingCollators) (s : Storage L)
      → Apart s (update_each_collator cfg r es s)
  unfolding update_each_collator
  update_collators-Apart r [] s = refl
  update_collators-Apart r ((a, c) ∷ es) s = update_collators-Apart r es _

  pay_due-Apart :
      (r acc staked : ℕ) (cs : List UnBondChunk) (s : Storage L)
      → Apart s (pay_due cfg r acc staked cs s)
  unfolding pay_due pay_out
  pay_due-Apart r acc staked [] s = refl
  pay_due-Apart r acc staked (c ∷ cs) s = ground (
    arith,
    pay_due-Apart r acc staked cs (if ltb r c.round then s else pay_out cfg r acc staked c.value s),
  )

  pay_all-Apart :
      (r acc staked : ℕ) (cs : List UnBondChunk) (s : Storage L)
      → Apart s (pay_all cfg r acc staked cs s)
  unfolding pay_all pay_out
  pay_all-Apart r acc staked [] s = refl
  pay_all-Apart r acc staked (c ∷ cs) s = pay_all-Apart r acc staked cs _

  execute_exit-Apart :
      (r acc : ℕ) (e : Leaving) (s : Storage L) → Apart s (execute_exit cfg r acc e s)
  unfolding execute_exit pay_out
  execute_exit-Apart r acc e s = ground (
    arith,
    pay_due-Apart r acc s.total_staked e.unbonding s,
    pay_all-Apart r acc s.total_staked e.unbonding (pay_out cfg r acc s.total_staked e.remaining s),
  )

  execute_exits-Apart :
      (r : ℕ) (es : Map Leaving) (s : Storage L) → Apart s (execute_each_exit cfg r es s)
  unfolding execute_each_exit
  execute_exits-Apart r [] s = refl
  execute_exits-Apart r ((a, e) ∷ es) s = execute_exits-Apart r es _ ∙ execute_exit-Apart r a e s

  record_exposures-Apart :
      (r : ℕ) (es : Map Exposure) (s : Storage L) → Apart s (record_exposures cfg r es s)
  unfolding record_exposures
  record_exposures-Apart r [] s = refl
  record_exposures-Apart r ((a, e) ∷ es) s = record_exposures-Apart r es _

  enact_election-Apart :
      (elect : Storage L → Option Supports) (r : ℕ) (s : Storage L)
      → Apart s (enact_election cfg elect r s).1
  unfolding enact_election process_election
  enact_election-Apart elect r s = elim (Option-cases (elect s)) [
    | inl e ↦ ground arith
    | inr (supports, e) ↦
        ground (arith, record_exposures-Apart r (collect_exposures cfg supports s) s)
  ]

  -- After a round has begun the nominators are as `update_nominators` leaves them.
  pub start_round-nominators :
      {B : Type 0} (per : PerThing) (u : BigUint B) (elect : Storage L → Option Supports) (r : ℕ)
      (s : Storage L)
      → let collators = update_collators cfg r (payout_stakers cfg per u r s) in
        ((start_round cfg per u elect r s).nominators
          ≡ (update_nominators cfg r collators).nominators)
        × (collators.nominators ≡ s.nominators)
  unfolding start_round execute_exit_queue update_collators
  start_round-nominators per u elect r s =
      let paid = payout_stakers cfg per u r s in
      let nominators = update_nominators cfg r (update_collators cfg r paid) in
      let exits = execute_exit_queue cfg r nominators in
      (
        enact_election-Apart elect r exits ∙ execute_exits-Apart r nominators.exit_queue nominators,
        update_collators-Apart r paid.collators paid ∙ payout_stakers-Apart per u r s,
      )
