-- ===== src/Staking/Tests.antt =====
-- A storage of the staking pallet, runs of its calls, and the theorems at inputs that meet their
-- hypotheses: of the calls here, of the round's end in Rounds, of the ledgers and formulas in Parts.
mod Rounds
mod Parts
mod Counts
mod Nominating
mod Unbonding
use polkafoundry.Base.{
  ◌+◌, ◌-◌, ◌≡◌, ◌⊎◌, refl, arith, none, some, [], ◌∷◌, lookup, signed, ok, err, error, Failure,
}
use polkafoundry.Samples.{Balances, sample_currency, sample_perbill}
use polkafoundry.Samples.Limbs.{number}
use polkafoundry.Staking.Types
use polkafoundry.Staking.Types.{Error, StakerStatus, Leaving}
use polkafoundry.Staking.Bonds.Chunks.{unbonded}
use polkafoundry.Staking.Collator
use polkafoundry.Staking.Collator.{StakingCollators}
use polkafoundry.Staking.Nominator.{StakingNominators}
use polkafoundry.Staking.State.{Config, Storage, put_nominator, withdraw_round}
use polkafoundry.Staking.Calls.{bond, collator_unbond, nominate, nominator_leave_collator, bond_of}
use polkafoundry.Staking.Ops.{Op, apply}
use polkafoundry.Staking.Atomic.{apply-atomic, nominate_error, nominator_after}
use polkafoundry.Staking.Books.{AllSound}
use polkafoundry.Staking.Reach.{Reach, Reach-AllSound, call, author, finalize, here, next}
use polkafoundry.Staking.Gaps.{collator_unbond_forgets_locked}
use polkafoundry.Staking.Mirror.{IsMirrored}
use polkafoundry.Staking.Mirror.Every.{apply-IsMirrored}
use polkafoundry.Staking.RoundEnd.{on_finalize}
use polkafoundry.Staking.Authorship.{note_author}

abbrev pub cfg : Config Balances
cfg = record {
  currency = sample_currency;
  blocks_per_round = 10;
  max_nominations_per_collator = 2;
  bond_duration = 2;
  min_collator_stake = 500;
  min_nominator_stake = 100;
  payout_duration = 2;
  desired_target = 2;
  to_vote = λ n i. n;
  to_currency = λ n i. n;
}

abbrev pub funds : Balances
funds = record { free = λ a. 1000; reserved = λ a. 0 }

abbrev pub alice : StakingCollators
alice = record {
  total = 700;
  active = 500;
  nominations = bond_of 10 300 ∷ [];
  unlocking = record { value = 200; round = 5 } ∷ [];
  unbonding = [];
  status = StakerStatus.active;
  claimed_rewards = [];
}

abbrev pub nora : StakingNominators
nora = record {
  nominations = bond_of 1 300 ∷ [];
  total = 350;
  unbonding = record { value = 50; round = 2 } ∷ [];
  claimed_rewards = [];
}

abbrev pub leaver : Leaving
leaver = record {
  remaining = 40;
  unbonding = record { value = 20; round = 1 } ∷ record { value = 30; round = 3 } ∷ [];
  when = 2;
}

abbrev pub start : Storage Balances
start = record {
  balances = funds;
  current_round = record { index = 1; start_in = 0; length = 10 };
  collators = (1, alice) ∷ [];
  exit_queue = (7, leaver) ∷ [];
  total_staked = 1140;
  settings = record { bond_duration = 2; blocks_per_round = 10; desired_target = 2 };
  total_staked_at = [];
  total_issuance_at = [];
  nominators = (10, nora) ∷ [];
  round_staker_clipped = [];
  total_points = [];
  collator_points = [];
  events = [];
}

start-AllSound : AllSound start.collators
start-AllSound = (record { books = omega arith; idle = λ e. refl }, tt)

-- Collator 2 bonds, nominator 10 asks for too little, block author 1 is noted and the round ends.
abbrev bonded : Storage Balances
bonded = (apply cfg (Op.bond 600) (signed 2) start).1

abbrev asked : Storage Balances
asked = (apply cfg (Op.nominate 1 50) (signed 10) bonded).1

abbrev noted : Storage Balances
noted = note_author 1 asked

abbrev ended : Storage Balances
ended = on_finalize cfg sample_perbill number (λ s. none) 10 noted

life : Reach cfg sample_perbill number (λ s. none) start ended
life =
    next
      (next
        (next (next here (call (Op.bond 600) (signed 2) start (omega arith)))
          (call (Op.nominate 1 50) (signed 10) bonded tt))
        (author 1 asked))
      (finalize 10 noted)

Reach-AllSound_example : AllSound ended.collators
Reach-AllSound_example = Reach-AllSound cfg sample_perbill number (λ s. none) start-AllSound life

-- The second bond of collator 1 is refused.
rebond : (apply cfg (Op.bond 600) (signed 1) start).0 ≡ err (error Types.already_bonded)
unfolding apply bond
rebond = refl

apply-atomic_example : (apply cfg (Op.bond 600) (signed 1) start).1 ≡ start
apply-atomic_example =
    apply-atomic cfg (Op.bond 600) (signed 1) start (error Types.already_bonded) tt rebond

small : (nominate cfg (signed 10) 1 50 start).0 ≡ err (error Types.nominate_below_min)
unfolding nominate
small = refl

nominate_error_example :
    ((nominate cfg (signed 10) 1 50 start).1 ≡ start)
    ⊎ ((◌≡◌ {A = Failure Error} (error Types.nominate_below_min) (error Types.nomination_not_exist))
        × ((nominate cfg (signed 10) 1 50 start).1
            ≡ put_nominator 10 (nominator_after cfg start 10 1 50) start))
nominate_error_example = nominate_error cfg 10 1 50 start (error Types.nominate_below_min) small

start-IsMirrored : IsMirrored start
start-IsMirrored w k = ground arith

apply-IsMirrored_example :
    IsMirrored (apply cfg (Op.nominator_leave_collator 1) (signed 10) start).1
apply-IsMirrored_example =
    apply-IsMirrored cfg (Op.nominator_leave_collator 1) (signed 10) start tt start-IsMirrored

collator_unbond_forgets_locked_example :
    let (r, t) = collator_unbond cfg (signed 1) start in
    (r ≡ ok tt)
    × (lookup 1 t.collators ≡ none)
    × ((e : Leaving) × (lookup 1 t.exit_queue ≡ some e)
        × (e.when ≡ withdraw_round start)
        × (e.remaining + unbonded e.unbonding + 200 ≡ 700))
collator_unbond_forgets_locked_example =
    collator_unbond_forgets_locked cfg 1 alice start refl (omega arith)
