-- ===== src/Staking/Issuance/Rounds.antt =====
-- The end of a round, and the whole life of the pallet, against the total issuance.
use polkafoundry.Base.{ℕ, refl, arith, Option, Origin, sum_of-push, Bool-cases, inl, inr, mul_u32}
use polkafoundry.Currency.{IssuanceCounts}
use polkafoundry.PerThing.{PerThing}
use polkafoundry.BigUint.{BigUint}
use polkafoundry.Staking.Types.{Event}
use polkafoundry.Staking.State.{Config, Storage}
use polkafoundry.Staking.Payout.{payout_stakers}
use polkafoundry.Staking.Updates.{update_collators, update_nominators, execute_exit_queue}
use polkafoundry.Staking.Election.{Supports, enact_election}
use polkafoundry.Staking.Round.{update, should_goto_next_round}
use polkafoundry.Staking.Ops.{Op, apply}
use polkafoundry.Staking.RoundEnd.{start_round, on_finalize}
use polkafoundry.Staking.Authorship.{note_author}
use polkafoundry.Staking.Issuance.{rewarded, Accounted, Accounted-of_Quiet, Accounted-trans}
use polkafoundry.Staking.Issuance.Calls.{apply-Quiet}
use polkafoundry.Staking.Issuance.Rewards.{payout_stakers-Accounted}
use polkafoundry.Staking.Issuance.Updates.{
  update_each_collator-Quiet, update_each_nominator-Quiet, execute_each_exit-Quiet,
  enact_election-Quiet,
}

module _ {L B : Type 0} (cfg : Config L) (law : IssuanceCounts cfg.currency) (per : PerThing)
    (u : BigUint B) (elect : Storage L → Option Supports) where
  start_round-Accounted :
      (r : ℕ) (s : Storage L) → Accounted cfg s (start_round cfg per u elect r s)
  unfolding start_round update_collators update_nominators execute_exit_queue
  start_round-Accounted r s =
      let paid = payout_stakers cfg per u r s in
      let collators = update_collators cfg r paid in
      let nominators = update_nominators cfg r collators in
      let exits = execute_exit_queue cfg r nominators in
      let elected = (enact_election cfg elect r exits).1 in
      omega (
        arith,
        payout_stakers-Accounted cfg law per u r s,
        (update_each_collator-Quiet cfg law r paid.collators paid).0,
        (update_each_collator-Quiet cfg law r paid.collators paid).1,
        (update_each_nominator-Quiet cfg law r collators.nominators collators).0,
        (update_each_nominator-Quiet cfg law r collators.nominators collators).1,
        (execute_each_exit-Quiet cfg law r nominators.exit_queue nominators).0,
        (execute_each_exit-Quiet cfg law r nominators.exit_queue nominators).1,
        (enact_election-Quiet cfg law r elect exits).0,
        (enact_election-Quiet cfg law r elect exits).1,
        sum_of-push rewarded elected.events
            (Event.new_round_start r (mul_u32 r s.settings.blocks_per_round)),
      )

  on_finalize-Accounted :
      (now : ℕ) (s : Storage L) → Accounted cfg s (on_finalize cfg per u elect now s)
  unfolding on_finalize
  on_finalize-Accounted now s =
      let next = update now s.settings.blocks_per_round s.current_round in
      let begun : Storage L = record s { current_round = next } in
      elim (Bool-cases (should_goto_next_round now s.current_round)) [
        | inl t ↦ rw t (start_round-Accounted next.index begun)
        | inr t ↦ rw t refl
      ]

  -- One thing that happens to the pallet, of whatever amounts.
  pub data Step : Storage L → Storage L → Type 0 where
    call : (op : Op) (o : Origin) (s : Storage L) → Step s (apply cfg op o s).1
    author : (who : ℕ) (s : Storage L) → Step s (note_author who s)
    finalize : (now : ℕ) (s : Storage L) → Step s (on_finalize cfg per u elect now s)

  pub data Reach (s : Storage L) : Storage L → Type 0 where
    here : Reach s s
    next : {t v : Storage L} → Reach s t → Step t v → Reach s v

  Step-Accounted : {s t : Storage L} → Step s t → Accounted cfg s t
  unfolding note_author
  Step-Accounted (call op o s) =
      Accounted-of_Quiet cfg s (apply cfg op o s).1 (apply-Quiet cfg law op o s)
  Step-Accounted (author who s) = refl
  Step-Accounted (finalize now s) = on_finalize-Accounted now s

  -- Whatever calls, failures, block authors and round ends come in whatever order, the total issuance rises
  -- by exactly what the reported rewards add up to: only the payout of a round creates funds. (Reserving,
  -- unreserving and depositing do to the issuance what they are documented to do.)
  pub Reach-Accounted : {s t : Storage L} → Reach s t → Accounted cfg s t
  Reach-Accounted here = refl
  Reach-Accounted {s = s} (next {t = t} {v = v} r st) =
      Accounted-trans cfg s t v (Reach-Accounted r) (Step-Accounted st)
