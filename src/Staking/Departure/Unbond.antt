-- ===== src/Staking/Departure/Unbond.antt =====
-- From `collator_unbond` of pallets/polkafoundry-staking/src/lib.rs until the exit has left the queue.
use polkafoundry.Base.{
  ℕ, ◌+◌, ◌-◌, ◌*◌, ◌≤◌, ◌<◌, ◌≡◌, ap, arith, Option, some, Origin, signed, lookup, lookup-insert,
  IsDistinct, insert-IsDistinct, List, length, u32_mod, add_u32_exact,
}
use polkafoundry.PerThing.{PerThing}
use polkafoundry.BigUint.{BigUint}
use polkafoundry.Staking.Types.{Leaving}
use polkafoundry.Staking.Collator.{StakingCollators}
use polkafoundry.Staking.State.{Config, Storage, withdraw_round}
use polkafoundry.Staking.Calls.{collator_unbond}
use polkafoundry.Staking.Ops.{Op}
use polkafoundry.Staking.Election.{Supports}
use polkafoundry.Staking.Departure.{leave_all-clock}
use polkafoundry.Staking.Departure.Due.{Waits, Leaves, AllBlocksLeaveBe, exit_queue-Leaves}

-- What `collator_unbond` of a collator leaves behind.
record Queued {L : Type 0} (who : ℕ) (c : StakingCollators) (s t : Storage L) : Type 0 where
  same_round : t.current_round ≡ s.current_round
  same_settings : t.settings ≡ s.settings
  distinct : IsDistinct s.exit_queue → IsDistinct t.exit_queue
  queued :
      lookup who t.exit_queue
      ≡ some (record { remaining = c.active; unbonding = c.unbonding; when = withdraw_round s })

-- When a round can be left: block `now` is in the running round, and a collator waits a round at least.
pub record InTime {L : Type 0} (now n : ℕ) (s : Storage L) : Type 0 where
  pub begun : s.current_round.start_in ≤ now
  pub running : now < s.current_round.start_in + s.current_round.length
  pub some_blocks : 0 < s.settings.blocks_per_round
  pub some_rounds : 0 < s.settings.bond_duration
  pub fits : s.current_round.index + s.settings.bond_duration < u32_mod
  pub enough :
      s.current_round.start_in
        + s.current_round.length
        - now
        + (s.settings.bond_duration - 1) * s.settings.blocks_per_round
      ≤ n

module _ {L B : Type 0} (cfg : Config L) (per : PerThing) (u : BigUint B)
    (elect : Storage L → Option Supports) where
  collator_unbond-Queued :
      (who : ℕ) (c : StakingCollators) (s : Storage L)
      → lookup who s.collators ≡ some c
      → Queued who c s (collator_unbond cfg (signed who) s).1
  unfolding collator_unbond
  collator_unbond-Queued who c s e =
      let exit : Leaving = record {
        remaining = c.active;
        unbonding = c.unbonding;
        when = withdraw_round s;
      } in
      let freed = leave_all-clock cfg c.nominations s in
      record {
        same_round = ground (arith, freed);
        same_settings = ground (arith, freed);
        distinct = λ d. ground (arith, freed, insert-IsDistinct who exit s.exit_queue d);
        queued = ground (arith, freed, lookup-insert who who exit s.exit_queue);
      }

  Queued-Waits :
      (who now n : ℕ) (c : StakingCollators) (s t : Storage L)
      → Queued who c s t
      → IsDistinct s.exit_queue
      → InTime now n s
      → Waits who (s.current_round.index + s.settings.bond_duration) now n t
  Queued-Waits who now n c s t q d h = record {
    exit = record { remaining = c.active; unbonding = c.unbonding; when = withdraw_round s };
    listed = q.queued;
    due = add_u32_exact s.current_round.index s.settings.bond_duration h.fits;
    before = rw q.same_round (omega (arith, h.some_rounds));
    begun = rw q.same_round h.begun;
    running = rw q.same_round h.running;
    some_blocks = rw q.same_settings h.some_blocks;
    distinct = q.distinct d;
    enough =
        rw (q.same_round, q.same_settings)
          (omega (arith, h.enough, ap (λ d. d * s.settings.blocks_per_round) rounds));
  }
    where
      rounds :
          s.current_round.index + s.settings.bond_duration - (s.current_round.index + 1)
          ≡ s.settings.bond_duration - 1
      rounds = omega arith

  -- A collator that unbonds is queued with its active bond and its unbonding chunks, and it leaves the queue
  -- in one of the next blocks, as the round begins that comes after the bonding duration, and not before:
  -- after each earlier block it is still queued for that round, which has not begun. Whatever others call
  -- in these blocks, this holds if there are at least as many as the running round still has and the
  -- rounds in between take. The calls are neither `config` nor `collator_unbond` of the collator again, it
  -- waits at least one round, a round has at least one block, and the numbers fit a `u32`.
  pub collator_unbond-Leaves :
      (who now : ℕ) (c : StakingCollators) (blocks : List (List (Op × Origin))) (s : Storage L)
      → lookup who s.collators ≡ some c
      → IsDistinct s.exit_queue
      → InTime now (length blocks) s
      → now + length blocks < u32_mod
      → AllBlocksLeaveBe cfg per u elect who blocks
      → let t = (collator_unbond cfg (signed who) s).1 in
        let w = s.current_round.index + s.settings.bond_duration in
        (lookup who t.exit_queue
          ≡ some (record { remaining = c.active; unbonding = c.unbonding; when = w }))
        × Leaves cfg per u elect who w now t blocks
  collator_unbond-Leaves who now c blocks s e d h nb b =
      let t = (collator_unbond cfg (signed who) s).1 in
      let q = collator_unbond-Queued who c s e in
      let w = add_u32_exact s.current_round.index s.settings.bond_duration h.fits in
      (
        rw w at q.queued,
        exit_queue-Leaves cfg per u elect who (s.current_round.index + s.settings.bond_duration) now
            blocks t (Queued-Waits who now (length blocks) c s t q d h) h.fits nb b,
      )
