-- ===== src/Staking/RoundEnd/Leave.antt =====
-- What `on_finalize` does to the exit queue, the settings and the round.
use mathlib.Core.Path.{subst}
use polkafoundry.Base.{
  ℕ, ◌≡◌, refl, sym, ap, ◌∙◌, arith, Option, none, some, [], ◌∷◌, Map, lookup, IsDistinct,
  insert-IsDistinct, erase-IsDistinct,
}
use polkafoundry.PerThing.{PerThing}
use polkafoundry.BigUint.{BigUint}
use polkafoundry.Staking.Types.{SettingStruct, Leaving}
use polkafoundry.Staking.Collator.{StakingCollators}
use polkafoundry.Staking.Round.{RoundInfo}
use polkafoundry.Staking.State.{Config, Storage}
use polkafoundry.Staking.Payout.{payout_stakers}
use polkafoundry.Staking.Updates.{
  update_each_collator, update_collators, update_nominators, pay_out, execute_exit,
  execute_each_exit, execute_exit_queue, keep_later,
}
use polkafoundry.Staking.Updates.Exits.{
  left_of, pay_due-exit_queue, pay_all-exit_queue, lookup-execute_exit_queue,
}
use polkafoundry.Staking.Election.{Supports}
use polkafoundry.Staking.RoundEnd.Kept.{
  kept_part, same_first, same_second, same_third, same_main, same_last, payout_stakers-Kept,
  update_nominators-Kept, execute_exits-SameMain, enact_election-Kept,
}
use polkafoundry.Staking.RoundEnd.{start_round}

-- What is left of an exit, if there is one.
abbrev pub left_after : ℕ → Option Leaving → Option Leaving
left_after r none = none
left_after r (some e) = left_of r e

-- The round, the settings and the queue.
abbrev pub clock : {L : Type 0} → Storage L → RoundInfo × SettingStruct × Map Leaving
clock s = (s.current_round, s.settings, s.exit_queue)

module _ {L : Type 0} (cfg : Config L) (r : ℕ) where
  update_each_collator-clock :
      (es : Map StakingCollators) (s : Storage L)
      → clock (update_each_collator cfg r es s) ≡ clock s
  unfolding update_each_collator
  update_each_collator-clock [] s = refl
  update_each_collator-clock ((a, c) ∷ es) s = update_each_collator-clock es _

  execute_exit-IsDistinct :
      (acc : ℕ) (e : Leaving) (s : Storage L)
      → IsDistinct s.exit_queue
      → IsDistinct (execute_exit cfg r acc e s).exit_queue
  unfolding execute_exit pay_out
  execute_exit-IsDistinct acc e s d =
      let waiting = record e { unbonding = keep_later r e.unbonding } in
      ground (
        arith,
        pay_due-exit_queue cfg r acc s.total_staked e.unbonding s,
        pay_all-exit_queue cfg r acc s.total_staked e.unbonding
            (pay_out cfg r acc s.total_staked e.remaining s),
        insert-IsDistinct acc waiting s.exit_queue d,
        erase-IsDistinct acc s.exit_queue d,
      )

  execute_each_exit-IsDistinct :
      (es : Map Leaving) (s : Storage L)
      → IsDistinct s.exit_queue
      → IsDistinct (execute_each_exit cfg r es s).exit_queue
  unfolding execute_each_exit
  execute_each_exit-IsDistinct [] s d = d
  execute_each_exit-IsDistinct ((a, e) ∷ es) s d =
      execute_each_exit-IsDistinct es (execute_exit cfg r a e s) (execute_exit-IsDistinct a e s d)

-- What the round end leaves of the queue, besides the settings and the round that it has written.
pub record Turned {L : Type 0} (r : ℕ) (s t : Storage L) : Type 0 where
  pub same_round : t.current_round ≡ s.current_round
  pub same_settings : t.settings ≡ s.settings
  pub distinct : IsDistinct t.exit_queue
  pub left : (k : ℕ) → lookup k t.exit_queue ≡ left_after r (lookup k s.exit_queue)

clock_of_Kept : {L : Type 0} (s t : Storage L) → kept_part t ≡ kept_part s → clock t ≡ clock s
clock_of_Kept s t h = ap (λ p. (p.1, p.2, p.3)) h

module _ {L B : Type 0} (cfg : Config L) (per : PerThing) (u : BigUint B)
    (elect : Storage L → Option Supports) where
  pub start_round-Turned :
      (r : ℕ) (s : Storage L)
      → IsDistinct s.exit_queue
      → Turned r s (start_round cfg per u elect r s)
  unfolding start_round update_collators update_nominators execute_exit_queue
  start_round-Turned r s d =
      let paid = payout_stakers cfg per u r s in
      let collators = update_collators cfg r paid in
      let nominators = update_nominators cfg r collators in
      let exits = execute_exit_queue cfg r nominators in
      let before : clock nominators ≡ clock s =
        clock_of_Kept collators nominators
          (update_nominators-Kept cfg r collators.nominators collators)
        ∙ update_each_collator-clock cfg r paid.collators paid
        ∙ clock_of_Kept s paid (payout_stakers-Kept cfg per u r s) in
      let exited = execute_exits-SameMain cfg r nominators.exit_queue nominators in
      let elected = enact_election-Kept cfg elect r exits in
      let distinct = subst IsDistinct (sym (same_third before)) d in
      record {
        same_round = same_second (same_main elected) ∙ same_second exited ∙ same_first before;
        same_settings = same_third (same_main elected) ∙ same_third exited ∙ same_second before;
        distinct =
            subst IsDistinct (sym (same_last elected))
              (execute_each_exit-IsDistinct cfg r nominators.exit_queue nominators distinct);
        left = λ k.
            ap (lookup k) (same_last elected)
            ∙ lookup-execute_exit_queue cfg r nominators k distinct
            ∙ ap (λ q. left_after r (lookup k q)) (same_third before);
      }
