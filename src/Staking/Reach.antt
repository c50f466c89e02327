-- ===== src/Staking/Reach.antt =====
-- The life of the staking pallet as a step relation: calls in any order by any origin, notes of block
-- authors and ends of blocks; and what holds of every storage that is reached.
use polkafoundry.Base.{ℕ, Option, Origin, Bool-cases, inl, inr, sym}
use mathlib.Core.Path.{subst}
use polkafoundry.PerThing.{PerThing}
use polkafoundry.BigUint.{BigUint}
use polkafoundry.Staking.Round.{update, should_goto_next_round}
use polkafoundry.Staking.State.{Config, Storage}
use polkafoundry.Staking.Ops.{Op, apply}
use polkafoundry.Staking.Updates.{update_collators}
use polkafoundry.Staking.Payout.{payout_stakers}
use polkafoundry.Staking.Election.{Supports}
use polkafoundry.Staking.RoundEnd.{on_finalize}
use polkafoundry.Staking.RoundEnd.Turn.{start_round-SameMain}
use polkafoundry.Staking.RoundEnd.Kept.{payout_stakers-Kept, same_first, same_main}
use polkafoundry.Staking.Authorship.{note_author}
use polkafoundry.Staking.Books.{AllSound, Fits}
use polkafoundry.Staking.Books.Every.{apply-AllSound}
use polkafoundry.Staking.Books.Rounds.{update_each_collator-AllSound}

module _ {L B : Type 0} (cfg : Config L) (per : PerThing) (u : BigUint B)
    (elect : Storage L → Option Supports) where
  -- The end of a block keeps the books of every collator.
  pub on_finalize-AllSound :
      (now : ℕ) (s : Storage L)
      → AllSound s.collators
      → AllSound (on_finalize cfg per u elect now s).collators
  unfolding on_finalize update_collators
  on_finalize-AllSound now s a = elim (Bool-cases (should_goto_next_round now s.current_round)) [
    | inr t ↦ rw t a
    | inl t ↦
        let next = update now s.settings.blocks_per_round s.current_round in
        let begun : Storage L = record s { current_round = next } in
        let paid = payout_stakers cfg per u next.index begun in
        let same = sym (same_first (same_main (payout_stakers-Kept cfg per u next.index begun))) in
        let kept = subst AllSound same a in
        rw t (
          subst AllSound (sym (same_first (start_round-SameMain cfg per u elect next.index begun)))
            (update_each_collator-AllSound cfg next.index paid.collators paid kept kept))
  ]

  -- One thing that happens to the pallet.
  pub data Step : Storage L → Storage L → Type 0 where
    call : (op : Op) (o : Origin) (s : Storage L) → Fits op o s → Step s (apply cfg op o s).1
    author : (who : ℕ) (s : Storage L) → Step s (note_author who s)
    finalize : (now : ℕ) (s : Storage L) → Step s (on_finalize cfg per u elect now s)

  pub data Reach (s : Storage L) : Storage L → Type 0 where
    here : Reach s s
    next : {t v : Storage L} → Reach s t → Step t v → Reach s v

  Step-AllSound : {s t : Storage L} → Step s t → AllSound s.collators → AllSound t.collators
  unfolding note_author
  Step-AllSound (call op o s f) a = apply-AllSound cfg op o s a f
  Step-AllSound (author who s) a = a
  Step-AllSound (finalize now s) a = on_finalize-AllSound now s a

  -- Whatever calls, failures, block authors and round ends come in whatever order, the books of
  -- every collator balance in every storage that is reached from one in which they do. (No bond is 2
  -- ^ 128 or more, and no extra bond overflows its collator's total.)
  pub Reach-AllSound : {s t : Storage L} → AllSound s.collators → Reach s t → AllSound t.collators
  Reach-AllSound a here = a
  Reach-AllSound a (next r st) = Step-AllSound st (Reach-AllSound a r)
