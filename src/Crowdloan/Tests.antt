-- ===== src/Crowdloan/Tests.antt =====
-- A storage of the crowdloan pallet, runs of its calls, and the theorems at inputs that meet their
-- hypotheses.
use polkafoundry.Base.{
  ℕ, ◌≡◌, ◌≢◌, refl, arith, true, none, some, List, [], ◌∷◌, lookup, inl, signed, root, ok, err,
  error, sub_u128, saturating_mul_u128, ◌==◌,
}
use polkafoundry.Samples.{Balances, sample_currency, sample_TransferMoves}
use polkafoundry.Crowdloan.{
  Config, Storage, RewardInfo, amount_due, initialize_reward, associate_account,
  update_associate_account, get_money, scanty_reward,
}
use polkafoundry.Crowdloan.Paying.{IsWithin, Claimed, booked, get_money_loses, get_money_lem}
use polkafoundry.Crowdloan.Accounts.{update_associate_account_lem}
use polkafoundry.Crowdloan.Vesting.{claims, vested, claims-vested}
use polkafoundry.Crowdloan.Setup.{fresh}
use polkafoundry.Crowdloan.Reach.{
  fresh-IsWithin, lookup-AllWithin, IsSound, Reach, here, next, initialize, associate, block,
  Reach-IsSound,
}

-- Account 100 pays the rewards; a proof is the relay account that signed.
abbrev cfg : Config Balances ℕ
cfg = record {
  currency = sample_currency;
  account_id = 100;
  verify = λ proof who relay. proof == relay;
}

abbrev start : Storage Balances
start = record {
  balances = record { free = λ a. 1000; reserved = λ a. 0 };
  block_number = 10;
  contributors = [];
  associated_accounts = [];
  current_reward_end_in = 0;
  reward_period = 0;
  events = [];
}

start-IsSound : IsSound start
start-IsSound = record { within = tt; started = λ n. absurd (n refl) }

-- A period of 50 blocks, in which the relay accounts 5 and 6 get 300 and 30.
abbrev gifts : List (ℕ × ℕ)
gifts = (5, 100) ∷ (6, 10) ∷ []

abbrev opened : Storage Balances
opened = (initialize_reward cfg root gifts 3 60 start).1

abbrev linked : Storage Balances
linked = (associate_account cfg (signed 1) 5 5 opened).1

abbrev later : Storage Balances
later = record linked { block_number = 20 }

life : Reach cfg start later
life =
    next
      (next (next here (initialize root gifts 3 60 start (omega arith)))
        (associate (signed 1) 5 5 opened))
      (block 20 linked)

Reach-IsSound_example : IsSound later
Reach-IsSound_example = Reach-IsSound cfg start-IsSound life

abbrev five : RewardInfo
five = fresh 10 3 100

abbrev claiming : Storage Balances
claiming = record start {
  block_number = 20;
  contributors = (5, five) ∷ (6, fresh 20 3 10) ∷ [];
  associated_accounts = (1, 5) ∷ (2, 6) ∷ [];
  reward_period = 50;
}

pays : (get_money cfg (signed 1) claiming).0 ≡ ok tt
unfolding get_money amount_due saturating_mul_u128 sub_u128
pays = refl

within : (relay : ℕ) (i : RewardInfo) → lookup relay claiming.contributors ≡ some i → IsWithin i
within relay i h =
    lookup-AllWithin relay i claiming.contributors
      (fresh-IsWithin 10 3 100, (fresh-IsWithin 20 3 10, tt)) h

get_money_lem_example :
    let t = (get_money cfg (signed 1) claiming).1 in
    (relay : ℕ) × (i : RewardInfo) × (lookup 1 claiming.associated_accounts ≡ some relay)
    × (lookup relay claiming.contributors ≡ some i)
    × Claimed cfg 1 relay i claiming t
get_money_lem_example = get_money_lem cfg sample_TransferMoves 1 claiming (omega arith) within pays

-- No block has passed since the last payment of relay account 6.
scanty : (get_money cfg (signed 2) claiming).0 ≡ err (error scanty_reward)
unfolding get_money amount_due saturating_mul_u128 sub_u128
scanty = refl

get_money_loses_example :
    let t = (get_money cfg (signed 2) claiming).1 in
    (lookup 6 t.contributors ≡ some (booked 50 20 (fresh 20 3 10)))
    × (t.balances ≡ claiming.balances)
    × (t.events ≡ claiming.events)
get_money_loses_example =
    get_money_loses cfg 2 6 (fresh 20 3 10) claiming refl refl (within 6 (fresh 20 3 10) refl)
      (inl scanty)

moves : (update_associate_account cfg (signed 3) 1 5 5 claiming).0 ≡ ok tt
unfolding update_associate_account
moves = refl

update_associate_account_lem_example :
    let t = (update_associate_account cfg (signed 3) 1 5 5 claiming).1 in
    ((5 == 5) ≡ true)
    × (lookup 1 claiming.associated_accounts ≡ some 5)
    × (lookup 3 t.associated_accounts ≡ some 5)
    × (lookup 1 t.associated_accounts ≡ none)
    × ((k : ℕ)
        → k ≢ 3
        → k ≢ 1
        → lookup k t.associated_accounts ≡ lookup k claiming.associated_accounts)
update_associate_account_lem_example = update_associate_account_lem cfg 3 1 5 5 claiming moves

-- Account 1 claims at four blocks; the first two claims pay, the third is of nothing, the fourth is of the
-- rest.
claims-vested_example :
    (j : RewardInfo) × (lookup 5 (claims cfg 1 (20 ∷ 25 ∷ 25 ∷ 80 ∷ []) claiming).contributors
      ≡ some j)
    × (j.total_reward ≡ five.total_reward)
    × (j.claimed_reward ≡ vested five.total_reward 50 10 80)
unfolding saturating_mul_u128
claims-vested_example =
    claims-vested cfg 1 5 five (20 ∷ 25 ∷ 25 ∷ 80 ∷ []) claiming refl refl refl (omega arith)
      (omega arith) (omega arith, (omega arith, (omega arith, (omega arith, tt))))
