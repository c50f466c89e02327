-- ===== src/Staking/Tests/Nominating.antt =====
-- Two nominations by one account, a leave and the end of a round.
use mathlib.Core.Path.{subst}
use polkafoundry.Base.{
  inl, ◌⊎◌, List, [], ◌∷◌, ◌++◌, Origin, ◌+◌, ◌<◌, ◌≡◌, refl, ap, arith, Option, none, some, lookup,
  signed, root, add_u32, add_u128, u128_mod,
}
use polkafoundry.Samples.{Balances, sample_perbill}
use polkafoundry.Samples.Limbs.{number}
use polkafoundry.Staking.Nominator.{StakingNominators}
use polkafoundry.Staking.Types.{Event}
use polkafoundry.Staking.Collator
use polkafoundry.Staking.Nominator
use polkafoundry.Staking.Search
use polkafoundry.Staking.Calls.{bond, force_onboard, nominate, record_nomination, collator_unbond}
use polkafoundry.Staking.Search.{IsSorted}
use polkafoundry.Staking.State.{Storage}
use polkafoundry.Staking.Ops.{Op, apply}
use polkafoundry.Staking.RoundEnd.{on_finalize}
use polkafoundry.Staking.Updates.Ledgers.{AllBooked}
use polkafoundry.Staking.Books.Life.{Reach, here, next, call, finalize, Reach-AllBooked}
use polkafoundry.Staking.Announced.{apply_all, told_all, raised_all, apply-total_staked}
use polkafoundry.Staking.Bonds.Stakes.{stake_of}
use polkafoundry.Staking.Tests.{cfg, nora, start}

start-AllBooked : AllBooked start.nominators
start-AllBooked = (record { balanced = refl; bounded = omega arith; unique = (refl, tt) }, tt)

-- Collator 2 bonds and is onboarded, nominator 10 nominates it after collator 1, leaves collator 1, and the round ends.
abbrev bonded : Storage Balances
bonded = (apply cfg (Op.bond 600) (signed 2) start).1

abbrev onboarded : Storage Balances
onboarded = (apply cfg (Op.force_onboard 2) root bonded).1

abbrev nominated : Storage Balances
nominated = (apply cfg (Op.nominate 2 100) (signed 10) onboarded).1

abbrev left : Storage Balances
left = (apply cfg (Op.nominator_leave_collator 1) (signed 10) nominated).1

abbrev ended : Storage Balances
ended = on_finalize cfg sample_perbill number (λ s. none) 10 left

abbrev nominator_or : Option StakingNominators → StakingNominators
nominator_or none = nora
nominator_or (some n) = n

in_order :
    (n : StakingNominators)
    → lookup 10 onboarded.nominators ≡ some n
    → ((stake_of 2 n.nominations ≡ none) ⊎ IsSorted n.nominations) × (n.total + 100 < u128_mod)
unfolding apply bond force_onboard Collator.is_active Collator.new
in_order n e =
    let same : nora ≡ n = ap nominator_or e in
    subst
      (λ (m : StakingNominators).
        ((stake_of 2 m.nominations ≡ none) ⊎ IsSorted m.nominations) × (m.total + 100 < u128_mod))
      same (inl refl, omega arith)

life : Reach cfg sample_perbill number (λ s. none) start ended
life =
    next
      (next
        (next
          (next (next here (call (Op.bond 600) (signed 2) start tt))
            (call (Op.force_onboard 2) root bonded tt))
          (call (Op.nominate 2 100) (signed 10) onboarded (omega arith, in_order)))
        (call (Op.nominator_leave_collator 1) (signed 10) nominated tt))
      (finalize 10 left)

Reach-AllBooked_example : AllBooked ended.nominators
Reach-AllBooked_example = Reach-AllBooked cfg sample_perbill number (λ s. none) start-AllBooked life

-- Collator 2 bonds and is onboarded, 10 nominates it, a second bond is refused, and collator 1 leaves.
abbrev calls : List (Op × Origin)
calls =
    (Op.bond 600, signed 2)
    ∷ (Op.force_onboard 2, root)
    ∷ (Op.nominate 2 100, signed 10)
    ∷ (Op.bond 600, signed 2)
    ∷ (Op.collator_unbond, signed 1)
    ∷ []

heard :
    told_all cfg calls start
    ≡ Event.bonded 2 600
      ∷ Event.candidate_onboard 2
      ∷ Event.nominate 2 100
      ∷ Event.candidate_leaving 1 3
      ∷ []
unfolding apply bond force_onboard nominate record_nomination collator_unbond Collator.is_active
    Collator.new Collator.force_bond Collator.add_nomination Search.binary_search Search.search_loop
    Nominator.add_nomination add_u32 add_u128
heard = refl

apply-total_staked_example :
    ((apply_all cfg calls start).events ≡ start.events ++ told_all cfg calls start)
    × ((apply_all cfg calls start).total_staked
        ≡ raised_all (told_all cfg calls start) start.total_staked)
apply-total_staked_example = apply-total_staked cfg calls start
