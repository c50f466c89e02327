-- ===== src/Staking/RoundEnd/Turn.antt =====
-- What `on_finalize` does to the round and to the ledgers.
use mathlib.Core.Option
use mathlib.Core.Path.{subst, sym}
use polkafoundry.Base.{
  ℕ, ◌≡◌, arith, true, false, Option, lookup, IsDistinct, ◌∙◌, ap, ◌+◌, ◌%◌, u32_mod, add_u32, Map,
  some, refl, Option-cases, inl, inr,
}
use polkafoundry.PerThing.{PerThing}
use polkafoundry.BigUint.{BigUint}
use polkafoundry.Staking.Round.{update, should_goto_next_round}
use polkafoundry.Staking.State.{Config, Storage}
use polkafoundry.Staking.Payout.{payout_stakers}
use polkafoundry.Staking.Updates.{updated, update_collators, update_nominators, execute_exit_queue}
use polkafoundry.Staking.Updates.Ledgers.{lookup-update_collators}
use polkafoundry.Staking.Election.{Supports}
use polkafoundry.Staking.RoundEnd.Kept.{
  SameMain, then_same, same_first, same_second, same_main, payout_stakers-Kept,
  update_nominators-Kept, execute_exits-SameMain, enact_election-Kept,
}
use polkafoundry.Staking.Updates.Ledgers.{update_collators-current_round}
use polkafoundry.Staking.Books.{AllSound, lookup-AllSound}
use polkafoundry.Staking.Collator.{StakingCollators}
use polkafoundry.Staking.RoundEnd.Ledger.{turned_over, updated_lem}
use polkafoundry.Staking.RoundEnd.{start_round, on_finalize}

map_turned :
    (r k : ℕ) (m : Map StakingCollators)
    → AllSound m
    → Option.map (updated r) (lookup k m) ≡ Option.map (turned_over r) (lookup k m)
map_turned r k m a = elim (Option-cases (lookup k m)) [
  | inl e ↦ rw e refl
  | inr (c, e) ↦ rw e (ap some (updated_lem r c (lookup-AllSound k c m a e).books))
]

module _ {L B : Type 0} (cfg : Config L) (per : PerThing) (u : BigUint B)
    (elect : Storage L → Option Supports) where
  pub start_round-SameMain :
      (r : ℕ) (s : Storage L)
      → SameMain
          (update_collators cfg r (payout_stakers cfg per u r s))
          (start_round cfg per u elect r s)
  unfolding start_round update_nominators execute_exit_queue
  start_round-SameMain r s =
      let collators = update_collators cfg r (payout_stakers cfg per u r s) in
      let nominators = update_nominators cfg r collators in
      let exits = execute_exit_queue cfg r nominators in
      then_same (same_main (update_nominators-Kept cfg r collators.nominators collators)) (
        then_same (execute_exits-SameMain cfg r nominators.exit_queue nominators)
          (same_main (enact_election-Kept cfg elect r exits)))

  -- At a block at which the round is not over `on_finalize` changes nothing.
  pub on_finalize_within_round :
      (now : ℕ) (s : Storage L)
      → should_goto_next_round now s.current_round ≡ false
      → on_finalize cfg per u elect now s ≡ s
  unfolding on_finalize
  on_finalize_within_round now s h = ground arith

  -- At the end of a round `on_finalize` begins the next round at the current block, with the length
  -- from the settings. Whatever is paid out, elected or left, the ledger of every collator is then what it was
  -- with these changes: the unlocking chunks whose round has come have moved to the active bond, the unbonding
  -- chunks whose round has come have left the total, chunks of later rounds stay in their order, and who was
  -- onboarding is active. No account becomes a collator or ceases to be one. (No account has two entries
  -- among the collators, and the books of each of them balance.)
  pub lookup-on_finalize :
      (now : ℕ) (s : Storage L)
      → should_goto_next_round now s.current_round ≡ true
      → IsDistinct s.collators
      → AllSound s.collators
      → let t = on_finalize cfg per u elect now s in
        let r = (s.current_round.index + 1) % u32_mod in
        (t.current_round
          ≡ record { index = r; start_in = now; length = s.settings.blocks_per_round })
        × ((k : ℕ) → lookup k t.collators ≡ Option.map (turned_over r) (lookup k s.collators))
  unfolding on_finalize update add_u32
  lookup-on_finalize now s h d a =
      let next = update now s.settings.blocks_per_round s.current_round in
      let begun : Storage L = record s { current_round = next } in
      let paid = payout_stakers cfg per u next.index begun in
      let same = same_main (payout_stakers-Kept cfg per u next.index begun) in
      let rest = start_round-SameMain next.index begun in
      let chain : (k : ℕ) → _ = λ k.
        ap (lookup k) (same_first rest)
        ∙ (lookup-update_collators cfg next.index paid k
            (subst IsDistinct (sym (same_first same)) d)).0
        ∙ ap (λ m. Option.map (updated next.index) (lookup k m)) (same_first same)
        ∙ map_turned next.index k s.collators a in
      rw h (
        same_second rest ∙ update_collators-current_round cfg next.index paid ∙ same_second same,
        chain,
      )
