-- ===== src/Staking/Tests/Unbonding.antt =====
-- Collator 1 unbonds at block 5 of round 1 and leaves as round 3 begins.
use polkafoundry.Base.{Origin, ◌≡◌, refl, arith, none, some, List, [], ◌∷◌, lookup, signed}
use polkafoundry.Samples.{sample_perbill}
use polkafoundry.Samples.Limbs.{number}
use polkafoundry.Staking.Calls.{collator_unbond}
use polkafoundry.Staking.Ops.{Op}
use polkafoundry.Staking.Departure.Due.{AllBlocksLeaveBe, Leaves}
use polkafoundry.Staking.Departure.Unbond.{InTime, collator_unbond-Leaves}
use polkafoundry.Staking.Tests.{cfg, alice, start}

-- Fifteen blocks, with a few calls.
abbrev blocks : List (List (Op × Origin))
blocks =
    ((Op.nominate 1 50, signed 10) ∷ (Op.collator_unbond, signed 2) ∷ [])
    ∷ []
    ∷ ((Op.bond 600, signed 1) ∷ [])
    ∷ []
    ∷ []
    ∷ []
    ∷ []
    ∷ []
    ∷ []
    ∷ []
    ∷ []
    ∷ []
    ∷ []
    ∷ []
    ∷ []
    ∷ []

blocks-AllBlocksLeaveBe : AllBlocksLeaveBe cfg sample_perbill number (λ s. none) 1 blocks
blocks-AllBlocksLeaveBe = (
  (tt, (λ e. ground arith, tt)),
  (tt, ((tt, tt), (tt, (tt, (tt, (tt, (tt, (tt, (tt, (tt, (tt, (tt, (tt, (tt, tt)))))))))))))),
)

start-InTime : InTime 5 15 start
start-InTime = record {
  begun = omega arith;
  running = omega arith;
  some_blocks = omega arith;
  some_rounds = omega arith;
  fits = omega arith;
  enough = omega arith;
}

collator_unbond-Leaves_example :
    let t = (collator_unbond cfg (signed 1) start).1 in
    (lookup 1 t.exit_queue ≡ some (record { remaining = 500; unbonding = []; when = 3 }))
    × Leaves cfg sample_perbill number (λ s. none) 1 3 5 t blocks
collator_unbond-Leaves_example =
    collator_unbond-Leaves cfg sample_perbill number (λ s. none) 1 5 alice blocks start refl
      (refl, tt) start-InTime (omega arith) blocks-AllBlocksLeaveBe
