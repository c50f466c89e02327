-- ===== src/Staking/Issuance/Updates.antt =====
-- The steps of `on_finalize` after the payout leave the total issuance as it is.
use polkafoundry.Base.{
  Bool, true, false, ℕ, refl, arith, Option, List, [], ◌∷◌, ◌∙◌, Map, sum_of-push, ltb,
  if◌then◌else◌, Option-cases, Bool-cases, inl, inr,
}
use polkafoundry.Currency.{IssuanceCounts}
use polkafoundry.Staking.Types.{Event, Exposure, UnBondChunk, Leaving}
use polkafoundry.Staking.Collator.{StakingCollators}
use polkafoundry.Staking.Nominator.{StakingNominators}
use polkafoundry.Staking.State.{Config, Storage}
use polkafoundry.Staking.Updates.{
  update_each_collator, update_each_nominator, pay_out, pay_due, pay_all, execute_exit,
  execute_each_exit,
}
use polkafoundry.Staking.Election.{
  Supports, record_exposures, collect_exposures, process_election, enact_election,
}
use polkafoundry.Staking.Issuance.{rewarded, Quiet}

module _ {L : Type 0} (cfg : Config L) (law : IssuanceCounts cfg.currency) (r : ℕ) where
  Quiet-trans : (s t v : Storage L) → Quiet cfg s t → Quiet cfg t v → Quiet cfg s v
  Quiet-trans s t v h k = (k.0 ∙ h.0, k.1 ∙ h.1)

  pub update_each_collator-Quiet :
      (es : Map StakingCollators) (s : Storage L) → Quiet cfg s (update_each_collator cfg r es s)
  unfolding update_each_collator
  update_each_collator-Quiet [] s = (refl, refl)
  update_each_collator-Quiet ((a, c) ∷ es) s =
      let rest = update_each_collator-Quiet es _ in
      (rest.0 ∙ law.unreserve_keeps a _ s.balances, rest.1)

  pub update_each_nominator-Quiet :
      (es : Map StakingNominators) (s : Storage L) → Quiet cfg s (update_each_nominator cfg r es s)
  unfolding update_each_nominator
  update_each_nominator-Quiet [] s = (refl, refl)
  update_each_nominator-Quiet ((a, n) ∷ es) s =
      let rest = update_each_nominator-Quiet es _ in
      (rest.0 ∙ law.unreserve_keeps a _ s.balances, rest.1)

  pay_out-Quiet :
      (a staked value : ℕ) (s : Storage L) → Quiet cfg s (pay_out cfg r a staked value s)
  unfolding pay_out
  pay_out-Quiet a staked value s = (law.unreserve_keeps a value s.balances, refl)

  pay_if-Quiet :
      (later : Bool) (a staked value : ℕ) (s : Storage L)
      → Quiet cfg s (if later then s else pay_out cfg r a staked value s)
  pay_if-Quiet true a staked value s = (refl, refl)
  pay_if-Quiet false a staked value s = pay_out-Quiet a staked value s

  pay_due-Quiet :
      (a staked : ℕ) (cs : List UnBondChunk) (s : Storage L)
      → Quiet cfg s (pay_due cfg r a staked cs s)
  unfolding pay_due
  pay_due-Quiet a staked [] s = (refl, refl)
  pay_due-Quiet a staked (c ∷ cs) s =
      let next = if ltb r c.round then s else pay_out cfg r a staked c.value s in
      Quiet-trans s next (pay_due cfg r a staked cs next)
        (pay_if-Quiet (ltb r c.round) a staked c.value s) (pay_due-Quiet a staked cs next)

  pay_all-Quiet :
      (a staked : ℕ) (cs : List UnBondChunk) (s : Storage L)
      → Quiet cfg s (pay_all cfg r a staked cs s)
  unfolding pay_all
  pay_all-Quiet a staked [] s = (refl, refl)
  pay_all-Quiet a staked (c ∷ cs) s =
      let paid = pay_out cfg r a staked c.value s in
      Quiet-trans s paid (pay_all cfg r a staked cs paid) (pay_out-Quiet a staked c.value s)
        (pay_all-Quiet a staked cs paid)

  execute_exit-Quiet :
      (a : ℕ) (e : Leaving) (s : Storage L) → Quiet cfg s (execute_exit cfg r a e s)
  unfolding execute_exit
  execute_exit-Quiet a e s =
      let paid = pay_out cfg r a s.total_staked e.remaining s in
      elim (Bool-cases (ltb r e.when)) [
        | inl t ↦ rw t (pay_due-Quiet a s.total_staked e.unbonding s)
        | inr t ↦ rw t (
            Quiet-trans s paid (pay_all cfg r a s.total_staked e.unbonding paid)
              (pay_out-Quiet a s.total_staked e.remaining s)
              (pay_all-Quiet a s.total_staked e.unbonding paid))
      ]

  pub execute_each_exit-Quiet :
      (es : Map Leaving) (s : Storage L) → Quiet cfg s (execute_each_exit cfg r es s)
  unfolding execute_each_exit
  execute_each_exit-Quiet [] s = (refl, refl)
  execute_each_exit-Quiet ((a, e) ∷ es) s =
      let once = execute_exit cfg r a e s in
      Quiet-trans s once (execute_each_exit cfg r es once) (execute_exit-Quiet a e s)
        (execute_each_exit-Quiet es once)

  record_exposures-Quiet :
      (es : Map Exposure) (s : Storage L) → Quiet cfg s (record_exposures cfg r es s)
  unfolding record_exposures
  record_exposures-Quiet [] s = (refl, refl)
  record_exposures-Quiet ((a, e) ∷ es) s =
      let rest = record_exposures-Quiet es _ in
      let event = sum_of-push rewarded s.events (Event.collator_choosen r a e.total) in
      (rest.0, rest.1 ∙ omega (arith, event))

  pub enact_election-Quiet :
      (elect : Storage L → Option Supports) (s : Storage L)
      → Quiet cfg s (enact_election cfg elect r s).1
  unfolding enact_election process_election
  enact_election-Quiet elect s = elim (Option-cases (elect s)) [
    | inl e ↦ (ground arith, ground arith)
    | inr (supports, e) ↦
        let recorded = record_exposures-Quiet (collect_exposures cfg supports s) s in
        (ground (arith, recorded), ground (arith, recorded))
  ]
