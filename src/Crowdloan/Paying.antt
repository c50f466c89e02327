-- ===== src/Crowdloan/Paying.antt =====
-- What a claim (`get_money` of pallets/crowdloan-rewards/src/lib.rs) pays. The reward of a block is
-- the total divided by the period, rounded down.
use native.Mathlib.Nat.{mul-add}
use polkafoundry.Base.{
  ℕ, ◌+◌, ◌-◌, ◌*◌, ◌/◌, ◌≤◌, ◌<◌, ◌≡◌, ◌≢◌, ◌⊎◌, arith, min, some, lookup, lookup-insert, u128_mod,
  sub_u128_exact, saturating_mul_u128, saturating_add_u128, signed, ok, err, error, push,
  Option-cases, inl, inr, ap, sym, ◌∙◌,
}
use polkafoundry.Currency.{LeftOver, TransferMoves}
use polkafoundry.Crowdloan.{
  RewardInfo, Config, Storage, amount_due, paid, get_money, reward_paid, scanty_reward,
  reward_failed,
}

-- No more has been claimed than the total.
pub record IsWithin (i : RewardInfo) : Type 0 where
  pub claimed : i.claimed_reward ≤ i.total_reward
  pub bounded : i.total_reward < u128_mod

-- The amount that is due is what the blocks since the last payment earn, or what is left if that is less.
pub amount_due_lem :
    (period now : ℕ) (i : RewardInfo)
    → IsWithin i
    → amount_due period now i
      ≡ min (i.total_reward / period * (now - i.last_paid)) (i.total_reward - i.claimed_reward)
unfolding amount_due saturating_mul_u128
amount_due_lem period now i v =
    ground (arith, sub_u128_exact i.total_reward i.claimed_reward v.claimed v.bounded)

-- After a claim exactly the due amount has been added to what was claimed, and still no more than the total
-- has been claimed.
pub paid-IsWithin :
    (period now : ℕ) (i : RewardInfo)
    → IsWithin i
    → IsWithin (paid period now i)
      × ((paid period now i).claimed_reward ≡ i.claimed_reward + amount_due period now i)
unfolding paid saturating_add_u128
paid-IsWithin period now i v = omega (arith, v.claimed, v.bounded, amount_due_lem period now i v)

-- What a contributor has due: what the blocks since the last payment earn, at most what is left. And its
-- record once that is booked.
abbrev pub earned : ℕ → ℕ → RewardInfo → ℕ
earned period now i =
    min (i.total_reward / period * (now - i.last_paid)) (i.total_reward - i.claimed_reward)

abbrev pub booked : ℕ → ℕ → RewardInfo → RewardInfo
booked period now i = record {
  total_reward = i.total_reward;
  claimed_reward = i.claimed_reward + earned period now i;
  last_paid = now;
}

paid_lem : (period now : ℕ) (i : RewardInfo) → IsWithin i → paid period now i ≡ booked period now i
unfolding paid
paid_lem period now i v =
    let more =
      (paid-IsWithin period now i v).1
      ∙ ap (λ n. i.claimed_reward + n) (amount_due_lem period now i v) in
    ap with_claimed more
  where
    with_claimed : ℕ → RewardInfo
    with_claimed n = record i { last_paid = now; claimed_reward = n }

pub split_earned :
    (rate a b c : ℕ) → a ≤ b → b ≤ c → rate * (b - a) + rate * (c - b) ≡ rate * (c - a)
split_earned rate a b c h k = sym (mul-add rate (b - a) (c - b)) ∙ ap (λ n. rate * n) (omega arith)

-- For a contributor that has claimed no more than its reward, claiming at two blocks, the first not
-- before the last payment and the second not before the first, claims as much as claiming at the
-- later block alone.
pub paid_twice :
    (period t1 t2 : ℕ) (i : RewardInfo)
    → IsWithin i
    → i.last_paid ≤ t1
    → t1 ≤ t2
    → (paid period t2 (paid period t1 i)).claimed_reward ≡ (paid period t2 i).claimed_reward
unfolding paid
paid_twice period t1 t2 i v h k =
    let first = paid-IsWithin period t1 i v in
    omega (
      arith,
      v.claimed,
      first.1,
      amount_due_lem period t1 i v,
      (paid-IsWithin period t2 i v).1,
      amount_due_lem period t2 i v,
      (paid-IsWithin period t2 (paid period t1 i) first.0).1,
      amount_due_lem period t2 (paid period t1 i) first.0,
      split_earned (i.total_reward / period) i.last_paid t1 t2 h k,
    )

-- For a contributor that has claimed no more than its reward: once the blocks since the last payment
-- earn what is left, a claim brings the claimed amount to the total.
pub paid_in_full :
    (period now : ℕ) (i : RewardInfo)
    → IsWithin i
    → i.total_reward - i.claimed_reward ≤ i.total_reward / period * (now - i.last_paid)
    → (paid period now i).claimed_reward ≡ i.total_reward
paid_in_full period now i v h =
    omega (arith, v.claimed, (paid-IsWithin period now i v).1, amount_due_lem period now i v)

module _ {L Proof : Type 0} (cfg : Config L Proof) where
  -- A claim that is refused because its amount is below the minimum balance, or because the transfer fails,
  -- is still booked as claimed: the contributor's record counts what the blocks since its last payment earned,
  -- at most what was left, as paid at this block, and neither a balance has changed nor an event was
  -- deposited. (The contributor has claimed no more than its reward, which fits 128 bits.)
  pub get_money_loses :
      (who relay : ℕ) (i : RewardInfo) (s : Storage L)
      → lookup who s.associated_accounts ≡ some relay
      → lookup relay s.contributors ≡ some i
      → IsWithin i
      → let (r, t) = get_money cfg (signed who) s in
        ((r ≡ err (error scanty_reward)) ⊎ (r ≡ err (error reward_failed)))
        → (lookup relay t.contributors ≡ some (booked s.reward_period s.block_number i))
          × (t.balances ≡ s.balances)
          × (t.events ≡ s.events)
  unfolding get_money
  get_money_loses who relay i s ea ei v h = ground (
    arith,
    lookup-insert relay relay (paid s.reward_period s.block_number i) s.contributors,
    paid_lem s.reward_period s.block_number i v,
  )

-- What a successful claim of `i`'s contributor by `who` has done.
pub record Claimed {L Proof : Type 0} (cfg : Config L Proof) (who relay : ℕ) (i : RewardInfo)
    (s t : Storage L) : Type 0 where
  pub books : lookup relay t.contributors ≡ some (booked s.reward_period s.block_number i)
  pub enough : cfg.currency.minimum_balance ≤ earned s.reward_period s.block_number i
  pub covered :
      earned s.reward_period s.block_number i ≤ cfg.currency.free_balance cfg.account_id s.balances
  pub gets :
      cfg.currency.free_balance who t.balances
      ≡ cfg.currency.free_balance who s.balances + earned s.reward_period s.block_number i
  pub leaves :
      LeftOver cfg.currency.minimum_balance
        (cfg.currency.free_balance cfg.account_id s.balances
          - earned s.reward_period s.block_number i)
        (cfg.currency.free_balance cfg.account_id t.balances)
  pub reported :
      t.events ≡ push s.events (reward_paid who (earned s.reward_period s.block_number i))

module _ {L Proof : Type 0} (cfg : Config L Proof) (law : TransferMoves cfg.currency) where
  -- A claim that succeeds, by an account other than the treasury's, brings the caller exactly what the blocks
  -- since its last payment earned, at most what was left of its reward. That is at least the minimum balance,
  -- is booked in the record of the caller's relay account and reported by one event. The treasury's account
  -- has as much and keeps the rest, or nothing if the rest is below the minimum balance. (No contributor has
  -- claimed more than its reward, which fits 128 bits, and transfers move what they are documented to move.)
  pub get_money_lem :
      (who : ℕ) (s : Storage L)
      → cfg.account_id ≢ who
      → ((relay : ℕ) (i : RewardInfo) → lookup relay s.contributors ≡ some i → IsWithin i)
      → (get_money cfg (signed who) s).0 ≡ ok tt
      → let t = (get_money cfg (signed who) s).1 in
        (relay : ℕ) × (i : RewardInfo) × (lookup who s.associated_accounts ≡ some relay)
        × (lookup relay s.contributors ≡ some i)
        × Claimed cfg who relay i s t
  unfolding get_money
  get_money_lem who s ne within h = elim (Option-cases (lookup who s.associated_accounts)) [
    | inl e ↦ absurd (ground arith)
    | inr (relay, ea) ↦ elim (Option-cases (lookup relay s.contributors)) [
      | inl e ↦ absurd (ground arith)
      | inr (i, ei) ↦
          let due = amount_due s.reward_period s.block_number i in
          elim (Option-cases (cfg.currency.transfer cfg.account_id who due s.balances)) [
            | inl e ↦ absurd (ground arith)
            | inr (l, el) ↦
                let moved = law.moves cfg.account_id who due s.balances l el ne in
                let v = within relay i ei in
                let due_is = amount_due_lem s.reward_period s.block_number i v in
                let books =
                  lookup-insert relay relay (paid s.reward_period s.block_number i)
                    s.contributors in
                let paid_is = paid_lem s.reward_period s.block_number i v in
                (
                  relay,
                  i,
                  ea,
                  ei,
                  record {
                    books = ground (arith, books, paid_is);
                    enough = ground (arith, due_is);
                    covered = ground (arith, due_is, moved);
                    gets = ground (arith, due_is, moved);
                    leaves = ground (arith, due_is, moved);
                    reported = ground (arith, due_is);
                  },
                )
          ]
    ]
  ]
