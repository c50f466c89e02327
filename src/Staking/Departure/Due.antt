-- ===== src/Staking/Departure/Due.antt =====
-- An exit that is due leaves the queue: blocks with calls and their `on_finalize`, one after another.
use polkafoundry.Base.{
  ℕ, suc, ◌+◌, ◌-◌, ◌*◌, ◌≤◌, ◌<◌, ◌≡◌, ◌⊎◌, refl, sym, ap, ◌∙◌, arith, false, Option, none, some,
  Origin, lookup, IsDistinct, List, [], ◌∷◌, length, ltb, u32_mod, add_u32_exact, sub_u32_exact,
  Bool-cases, inl, inr,
}
use polkafoundry.PerThing.{PerThing}
use polkafoundry.BigUint.{BigUint}
use polkafoundry.Staking.Types.{Leaving}
use polkafoundry.Staking.Round.{update, should_goto_next_round}
use polkafoundry.Staking.State.{Config, Storage}
use polkafoundry.Staking.Ops.{Op}
use polkafoundry.Staking.Updates.Exits.{left_of, later}
use polkafoundry.Staking.Election.{Supports}
use polkafoundry.Staking.RoundEnd.{on_finalize}
use polkafoundry.Staking.RoundEnd.Leave.{Turned, start_round-Turned, left_after}
use polkafoundry.Staking.Departure.{Passed, apply_all, AllLeaveBe, apply_all-Passed, rounds_left}

-- The exit of `k` waits for round `w` in a round that is not over at block `now`, and `n` blocks are enough.
pub record Waits {L : Type 0} (k w now n : ℕ) (s : Storage L) : Type 0 where
  pub exit : Leaving
  pub listed : lookup k s.exit_queue ≡ some exit
  pub due : exit.when ≡ w
  pub before : s.current_round.index < w
  pub begun : s.current_round.start_in ≤ now
  pub running : now < s.current_round.start_in + s.current_round.length
  pub some_blocks : 0 < s.settings.blocks_per_round
  pub distinct : IsDistinct s.exit_queue
  pub enough :
      s.current_round.start_in
        + s.current_round.length
        - now
        + (w - (s.current_round.index + 1)) * s.settings.blocks_per_round
      ≤ n

module _ {L : Type 0} (k w now n : ℕ) (s : Storage L) (wb : w < u32_mod) (nb : now + 1 < u32_mod)
    (h : Waits k w now (suc n) s) where
  -- The round goes on.
  same_round-Waits :
      should_goto_next_round (now + 1) s.current_round ≡ false → Waits k w (now + 1) n s
  unfolding should_goto_next_round
  same_round-Waits t =
      let passed = sub_u32_exact (now + 1) s.current_round.start_in (omega (arith, h.begun)) nb in
      let goes_on : now + 1 - s.current_round.start_in < s.current_round.length =
        ground (arith, passed) in
      record {
        exit = h.exit;
        listed = h.listed;
        due = h.due;
        before = h.before;
        begun = omega (arith, h.begun);
        running = omega (arith, h.begun, goes_on);
        some_blocks = h.some_blocks;
        distinct = h.distinct;
        enough = omega (arith, h.enough, h.begun, goes_on);
      }

  abbrev begun_round : Storage L
  begun_round = record s {
    current_round = update (now + 1) s.settings.blocks_per_round s.current_round;
  }

  next_index : begun_round.current_round.index ≡ s.current_round.index + 1
  unfolding update
  next_index = add_u32_exact s.current_round.index 1 (omega (arith, h.before))

  module _ (t : Storage L) (r : ℕ) (same : r ≡ begun_round.current_round.index)
      (turned : Turned r begun_round t) where
    -- The round of the exit begins.
    due-gone : w ≤ r → (lookup k t.exit_queue ≡ none) × (t.current_round.index ≡ w)
    due-gone late = (
      turned.left k ∙ ap (left_after r) h.listed ∙ nothing_left,
      ap (λ r. r.index) turned.same_round ∙ sym same ∙ omega (arith, h.before, next_index),
    )
      where
        nothing_left : left_of r h.exit ≡ none
        nothing_left = ground (arith, h.due)

    -- An earlier round begins.
    later_round-Waits : r < w → Waits k w (now + 1) n t
    unfolding update
    later_round-Waits early = record {
      exit = record h.exit { unbonding = later r h.exit.unbonding };
      listed = turned.left k ∙ ap (left_after r) h.listed ∙ some_left;
      due = h.due;
      before = rw turned.same_round (omega (arith, early));
      begun = rw turned.same_round (omega arith);
      running = rw turned.same_round (omega (arith, h.some_blocks));
      some_blocks = rw turned.same_settings h.some_blocks;
      distinct = turned.distinct;
      enough = rw (turned.same_round, turned.same_settings, next_index) next_enough;
    }
      where
        some_left : left_of r h.exit ≡ some (record h.exit { unbonding = later r h.exit.unbonding })
        some_left = ground (arith, h.due)

        len : ℕ
        len = s.settings.blocks_per_round

        next_enough : now + 1 + len - (now + 1) + (w - (s.current_round.index + 1 + 1)) * len ≤ n
        next_enough = omega (
          arith,
          h.enough,
          h.running,
          rounds_left w (s.current_round.index + 1) len (omega (arith, early, same, next_index)),
        )

module _ {L B : Type 0} (cfg : Config L) (per : PerThing) (u : BigUint B)
    (elect : Storage L → Option Supports) where
  Passed-Waits :
      (k w now n : ℕ) (s t : Storage L) → Passed k s t → Waits k w now n s → Waits k w now n t
  Passed-Waits k w now n s t p h = record {
    exit = h.exit;
    listed = p.same_exit ∙ h.listed;
    due = h.due;
    before = rw p.same_round h.before;
    begun = rw p.same_round h.begun;
    running = rw p.same_round h.running;
    some_blocks = rw p.same_settings h.some_blocks;
    distinct = p.distinct h.distinct;
    enough = rw (p.same_round, p.same_settings) h.enough;
  }

  -- What the end of a block makes of an exit that waits: it leaves as its round begins, or waits on.
  on_finalize-Waits :
      (k w now n : ℕ) (s : Storage L)
      → w < u32_mod
      → now + 1 < u32_mod
      → Waits k w now (suc n) s
      → let t = on_finalize cfg per u elect (now + 1) s in
        ((lookup k t.exit_queue ≡ none) × (t.current_round.index ≡ w)) ⊎ Waits k w (now + 1) n t
  unfolding on_finalize update
  on_finalize-Waits k w now n s wb nb h =
      let round = s.current_round in
      let next = update (now + 1) s.settings.blocks_per_round round in
      let begun : Storage L = record s { current_round = next } in
      let turned = start_round-Turned cfg per u elect next.index begun h.distinct in
      elim (Bool-cases (should_goto_next_round (now + 1) round)) [
        | inr t ↦ inr (rw t (same_round-Waits k w now n s wb nb h t))
        | inl t ↦ elim (Bool-cases (ltb next.index w)) [
          | inr done ↦
              inl (rw t (due-gone k w now n s wb nb h _ next.index refl turned (ground arith)))
          | inl more ↦
              inr (
                rw t
                  (later_round-Waits k w now n s wb nb h _ next.index refl turned (ground arith)))
        ]
      ]

  -- A block: its calls, and `on_finalize` with its number.
  unfoldable pub block : ℕ → List (Op × Origin) → Storage L → Storage L
  unfolding on_finalize
  block number calls s = on_finalize cfg per u elect number (apply_all cfg calls s)

  -- The exit of `k` is still queued for round `w`, which has not begun.
  abbrev pub IsQueued : ℕ → ℕ → Storage L → Type 0
  IsQueued k w s =
      (e : Leaving) × (lookup k s.exit_queue ≡ some e) × (e.when ≡ w) × (s.current_round.index < w)

  -- In one of the blocks after block `now` the exit of `k` leaves the queue, as round `w` begins, and it is
  -- queued after each block before that one.
  unfoldable pub Leaves : ℕ → ℕ → ℕ → Storage L → List (List (Op × Origin)) → Type 0
  Leaves k w now s [] = ⊥
  Leaves k w now s (calls ∷ blocks) =
      let t = block (now + 1) calls s in
      ((lookup k t.exit_queue ≡ none) × (t.current_round.index ≡ w))
      ⊎ (IsQueued k w t × Leaves k w (now + 1) t blocks)

  abbrev pub AllBlocksLeaveBe : ℕ → List (List (Op × Origin)) → Type 0
  AllBlocksLeaveBe k [] = Unit
  AllBlocksLeaveBe k (calls ∷ blocks) = AllLeaveBe cfg k calls × AllBlocksLeaveBe k blocks

  -- An account whose exit waits in the queue for a round leaves it in one of the next blocks, as that round
  -- begins, and is queued until then, whatever is called in these blocks, if there are at least as many blocks as the running round
  -- still has and the rounds in between take. The calls are neither `config` nor `collator_unbond` of that
  -- account itself, a round has at least one block, and the numbers fit a `u32`.
  pub exit_queue-Leaves :
      (k w now : ℕ) (blocks : List (List (Op × Origin))) (s : Storage L)
      → Waits k w now (length blocks) s
      → w < u32_mod
      → now + length blocks < u32_mod
      → AllBlocksLeaveBe k blocks
      → Leaves k w now s blocks
  unfolding Leaves block
  exit_queue-Leaves k w now [] s h wb nb b = absurd (omega (arith, h.enough, h.running))
  exit_queue-Leaves k w now (calls ∷ blocks) s h wb nb b =
      let called = apply_all cfg calls s in
      let waits =
        Passed-Waits k w now (suc (length blocks)) s called (apply_all-Passed cfg k calls s b.0)
          h in
      elim (on_finalize-Waits k w now (length blocks) called wb (omega arith) waits) [
        | inl gone ↦ inl gone
        | inr h' ↦ inr (
          (h'.exit, h'.listed, h'.due, h'.before),
          exit_queue-Leaves k w (now + 1) blocks (block (now + 1) calls s) h' wb (omega arith) b.1,
        )
      ]
