-- ===== src/Staking/Tests/Rounds.antt =====
-- The theorems on the round's end, the election, the points and the genesis at inputs that meet their
-- hypotheses.
use mathlib.Core.Option
use polkafoundry.Base.{
  ℕ, ◌+◌, ◌≡◌, refl, arith, true, none, some, List, [], ◌∷◌, lookup, lookup_or, sub_u32, signed,
  add_u128,
}
use polkafoundry.Samples.{Balances, sample_perbill}
use polkafoundry.Samples.Limbs.{number}
use polkafoundry.Staking.Round.{should_goto_next_round}
use polkafoundry.Staking.Nominator
use polkafoundry.Staking.State.{Storage, put_staked}
use polkafoundry.Staking.Updates.{execute_exit_queue}
use polkafoundry.Staking.Updates.Exits.{left_of, lookup-execute_exit_queue}
use polkafoundry.Staking.Election.{expose}
use polkafoundry.Staking.Election.Exposures.{
  expose_lem, nothing, own_stake, stakes_of_others, backing,
}
use polkafoundry.Staking.Payout.{payout_stakers, collator_reward, nominator_reward}
use polkafoundry.Staking.Payout.Once.{payout_stakers_twice}
use polkafoundry.Staking.RoundEnd.{on_finalize}
use polkafoundry.Staking.RoundEnd.Turn.{lookup-on_finalize}
use polkafoundry.Staking.Genesis.{bond_stakers, first_round, build}
use polkafoundry.Staking.Genesis.Totals.{build-total_staked}
use polkafoundry.Staking.Calls.{bond}
use polkafoundry.Staking.RoundEnd.Ledger.{turned_over}
use polkafoundry.Staking.Tests.{start-AllSound, cfg, start, leaver}

over : should_goto_next_round 10 start.current_round ≡ true
unfolding should_goto_next_round sub_u32
over = refl

lookup-on_finalize_example :
    let t = on_finalize cfg sample_perbill number (λ s. none) 10 start in
    (t.current_round ≡ record { index = 2; start_in = 10; length = 10 })
    × ((k : ℕ) → lookup k t.collators ≡ Option.map (turned_over 2) (lookup k start.collators))
lookup-on_finalize_example =
    lookup-on_finalize cfg sample_perbill number (λ s. none) 10 start over (refl, tt) start-AllSound

lookup-execute_exit_queue_example :
    lookup 7 (execute_exit_queue cfg 1 start).exit_queue ≡ left_of 1 leaver
lookup-execute_exit_queue_example = lookup-execute_exit_queue cfg 1 start 7 (refl, tt)

abbrev backers : List (ℕ × ℕ)
backers = (1, 500) ∷ (10, 300) ∷ []

expose_lem_example :
    let r = expose cfg 100000 1 backers nothing in
    (r.own ≡ own_stake cfg 100000 1 backers)
    × (backing r.others ≡ stakes_of_others cfg 100000 1 backers)
    × (r.others ≡ record { who = 10; value = 300 } ∷ [])
    × (r.total ≡ own_stake cfg 100000 1 backers + stakes_of_others cfg 100000 1 backers)
expose_lem_example = expose_lem cfg 100000 1 backers (omega arith)

abbrev empty : Storage Balances
empty = record start { collators = []; total_staked = 0; exit_queue = []; nominators = [] }

-- The second bond is below the minimum and refused.
abbrev listed : List (ℕ × ℕ)
listed = (1, 600) ∷ (2, 20) ∷ []

abbrev born : Storage Balances
born = first_round cfg (put_staked 620 (bond cfg (signed 2) 20 (bond cfg (signed 1) 600 empty).1).1)

built : build cfg listed empty ≡ some born
unfolding build bond_stakers bond add_u128
built = refl

build-total_staked_example :
    (born.total_staked ≡ 620)
    × (lookup_or 0 1 born.total_staked_at ≡ 620)
    × (born.current_round.index ≡ 1)
build-total_staked_example = build-total_staked cfg listed empty born (omega arith) built

-- Round 3, which pays round 1: collator 1 with its own stake and a nominator.
abbrev payable : Storage Balances
payable = record start {
  round_staker_clipped =
      (
        1,
        (1, record { total = 800; own = 500; others = record { who = 10; value = 300 } ∷ [] }) ∷ [],
      )
      ∷ [];
  total_staked_at = (1, 800) ∷ [];
  total_issuance_at = (1, 1000000) ∷ [];
  total_points = (1, 20) ∷ [];
  collator_points = (1, (1, 20) ∷ []) ∷ [];
}

abbrev rewarded_once : Storage Balances
rewarded_once = payout_stakers cfg sample_perbill number 3 payable

payout_stakers_twice_example :
    payout_stakers cfg sample_perbill number 3 rewarded_once ≡ rewarded_once
payout_stakers_twice_example = payout_stakers_twice cfg sample_perbill number 3 payable

-- One collator with a tenth of the stake and all points, and its nominators with the rest: of a payout of
-- 1000000 the collator gets 550000 and the nominators 900000.
overpaid :
    (collator_reward cfg sample_perbill 1000 1000000 20 20 100 ≡ 550000)
    × (nominator_reward cfg sample_perbill 1000 1000000 (record { who = 10; value = 900 }) ≡ 900000)
unfolding collator_reward nominator_reward add_u128
overpaid = (refl, refl)

-- Every account has 500 reserved.
abbrev backed : Storage Balances
backed = record start { balances = record { free = λ a. 1000; reserved = λ a. 500 } }
