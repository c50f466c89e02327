-- ===== src/Staking/Tests/Counts.antt =====
-- A round that is paid out, over a currency that keeps the total issuance only.
use polkafoundry.Base.{ℕ, ◌+◌, refl, arith, none, some, [], ◌∷◌, signed}
use polkafoundry.Currency.{Currency, IssuanceCounts}
use polkafoundry.Samples.{sample_perbill}
use polkafoundry.Samples.Limbs.{number}
use polkafoundry.Staking.State.{Config, Storage}
use polkafoundry.Staking.Ops.{Op, apply}
use polkafoundry.Staking.RoundEnd.{on_finalize}
use polkafoundry.Staking.Authorship.{note_author}
use polkafoundry.Staking.Issuance.{Accounted}
use polkafoundry.Staking.Issuance.Rounds.{
  Reach, call, author, finalize, here, next, Reach-Accounted,
}
use polkafoundry.Staking.Tests.{alice, nora, leaver}

abbrev counting : Currency ℕ
counting = record {
  free_balance = λ a l. l;
  reserved_balance = λ a l. 0;
  total_issuance = λ l. l;
  minimum_balance = 1;
  reserve = λ a x l. some l;
  unreserve = λ a x l. (0, l);
  deposit_into_existing = λ a x l. some (x, l + x);
  transfer = λ a b x l. some l;
}

counting-IssuanceCounts : IssuanceCounts counting
counting-IssuanceCounts = record {
  reserve_keeps = λ a x l l' e. ground arith;
  unreserve_keeps = λ a x l. refl;
  deposit_adds = λ a x y l l' e. ground arith;
}

abbrev cfg : Config ℕ
cfg = record {
  currency = counting;
  blocks_per_round = 10;
  max_nominations_per_collator = 2;
  bond_duration = 2;
  min_collator_stake = 500;
  min_nominator_stake = 100;
  payout_duration = 2;
  desired_target = 2;
  to_vote = λ n i. n;
  to_currency = λ n i. n;
}

-- Round 2 is about to end; round 3 pays what collator 1 and its nominator earned in round 1.
abbrev start : Storage ℕ
start = record {
  balances = 1000000;
  current_round = record { index = 2; start_in = 10; length = 10 };
  collators = (1, alice) ∷ [];
  exit_queue = (7, leaver) ∷ [];
  total_staked = 1140;
  settings = record { bond_duration = 2; blocks_per_round = 10; desired_target = 2 };
  total_staked_at = (1, 800) ∷ [];
  total_issuance_at = (1, 1000000) ∷ [];
  nominators = (10, nora) ∷ [];
  round_staker_clipped =
      (
        1,
        (1, record { total = 800; own = 500; others = record { who = 10; value = 300 } ∷ [] }) ∷ [],
      )
      ∷ [];
  total_points = (1, 20) ∷ [];
  collator_points = (1, (1, 20) ∷ []) ∷ [];
  events = [];
}

abbrev bonded : Storage ℕ
bonded = (apply cfg (Op.bond 600) (signed 2) start).1

abbrev noted : Storage ℕ
noted = note_author 1 bonded

abbrev ended : Storage ℕ
ended = on_finalize cfg sample_perbill number (λ s. none) 20 noted

life : Reach cfg counting-IssuanceCounts sample_perbill number (λ s. none) start ended
life =
    next (next (next here (call (Op.bond 600) (signed 2) start)) (author 1 bonded))
      (finalize 20 noted)

Reach-Accounted_example : Accounted cfg start ended
Reach-Accounted_example =
    Reach-Accounted cfg counting-IssuanceCounts sample_perbill number (λ s. none) life
