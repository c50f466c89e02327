-- ===== src/Staking/Books/Life.antt =====
-- The books of the nominators over the life of the staking pallet
-- (pallets/polkafoundry-staking/src/lib.rs): calls, notes of block authors and ends of blocks.
use mathlib.Core.Path.{subst, sym}
use polkafoundry.Base.{ℕ, Option, [], ◌∷◌, Map, Origin, Bool-cases, inl, inr}
use polkafoundry.PerThing.{PerThing}
use polkafoundry.BigUint.{BigUint}
use polkafoundry.Staking.Round.{update, should_goto_next_round}
use polkafoundry.Staking.Nominator
use polkafoundry.Staking.Nominator.{StakingNominators}
use polkafoundry.Staking.Nominator.Ledger
use polkafoundry.Staking.State.{Config, Storage}
use polkafoundry.Staking.Ops.{Op, apply}
use polkafoundry.Staking.Updates.{update_each_nominator, update_collators, update_nominators}
use polkafoundry.Staking.Updates.Ledgers.{AllBooked}
use polkafoundry.Staking.Payout.{payout_stakers}
use polkafoundry.Staking.Election.{Supports}
use polkafoundry.Staking.RoundEnd.{on_finalize}
use polkafoundry.Staking.Authorship.{note_author}
use polkafoundry.Staking.Books.Apart.{start_round-nominators}
use polkafoundry.Staking.Books.Nominators.{Orderly, insert-AllBooked, apply-AllBooked}

module _ {L B : Type 0} (cfg : Config L) (per : PerThing) (u : BigUint B)
    (elect : Storage L → Option Supports) where
  update_each_nominator-AllBooked :
      (r : ℕ) (es : Map StakingNominators) (s : Storage L)
      → AllBooked es
      → AllBooked s.nominators
      → AllBooked (update_each_nominator cfg r es s).nominators
  unfolding update_each_nominator
  update_each_nominator-AllBooked r [] s a b = b
  update_each_nominator-AllBooked r ((k, n) ∷ es) s a b =
      update_each_nominator-AllBooked r es _ a.1 (
        insert-AllBooked k (Nominator.consolidate_unbonded r n) s.nominators b
          (Ledger.consolidate_unbonded-IsBalanced r n a.0).0)

  -- The end of a block keeps the books of every nominator.
  on_finalize-AllBooked :
      (now : ℕ) (s : Storage L)
      → AllBooked s.nominators
      → AllBooked (on_finalize cfg per u elect now s).nominators
  unfolding on_finalize update_nominators
  on_finalize-AllBooked now s a = elim (Bool-cases (should_goto_next_round now s.current_round)) [
    | inr t ↦ rw t a
    | inl t ↦
        let next = update now s.settings.blocks_per_round s.current_round in
        let begun : Storage L = record s { current_round = next } in
        let updated = update_collators cfg next.index (payout_stakers cfg per u next.index begun) in
        let (last, first) = start_round-nominators cfg per u elect next.index begun in
        let kept = subst AllBooked (sym first) a in
        rw t (
          subst AllBooked (sym last)
            (update_each_nominator-AllBooked next.index updated.nominators updated kept kept))
  ]

  -- One thing that happens to the pallet.
  pub data Step : Storage L → Storage L → Type 0 where
    call : (op : Op) (o : Origin) (s : Storage L) → Orderly op o s → Step s (apply cfg op o s).1
    author : (who : ℕ) (s : Storage L) → Step s (note_author who s)
    finalize : (now : ℕ) (s : Storage L) → Step s (on_finalize cfg per u elect now s)

  pub data Reach (s : Storage L) : Storage L → Type 0 where
    here : Reach s s
    next : {t v : Storage L} → Reach s t → Step t v → Reach s v

  Step-AllBooked : {s t : Storage L} → Step s t → AllBooked s.nominators → AllBooked t.nominators
  unfolding note_author
  Step-AllBooked (call op o s f) a = apply-AllBooked cfg op o s a f
  Step-AllBooked (author who s) a = a
  Step-AllBooked (finalize now s) a = on_finalize-AllBooked now s a

  -- Whatever calls, failures, block authors and round ends come in whatever order, the books of every
  -- nominator balance in every storage that is reached from one in which they do: its total is its
  -- nominations and its unbonding chunks together, below 2 ^ 128, and no collator has two of its nominations.
  -- This holds if no nomination is 2 ^ 128 or more or overflows its nominator's total, and no nominator
  -- nominates a collator again that it nominates already, unless its nominations stand in the order of
  -- their collators (elsewhere `add_nomination` may miss the first nomination).
  pub Reach-AllBooked :
      {s t : Storage L} → AllBooked s.nominators → Reach s t → AllBooked t.nominators
  Reach-AllBooked a here = a
  Reach-AllBooked a (next r st) = Step-AllBooked st (Reach-AllBooked a r)
