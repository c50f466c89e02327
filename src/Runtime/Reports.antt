-- ===== src/Runtime/Reports.antt =====
-- What the calls of the crowdloan and treasury pallets do to the treasury's account, and what their events
-- report of it.
use polkafoundry.Base.{
  ℕ, ◌+◌, ◌≤◌, ◌⊎◌, ◌≡◌, ◌≢◌, refl, sym, arith, List, lookup, sum_of, sum_of-push, Origin, root,
  signed, unsigned, Option-cases, inl, inr,
}
use polkafoundry.Currency.{TransferMoves}
use polkafoundry.Crowdloan.{
  reward_paid, initialize_reward, associate_account, update_associate_account, get_money,
  amount_due,
}
use polkafoundry.Crowdloan
use polkafoundry.Treasury.{donation_received, funds_allocated, pot, donate, allocate}
use polkafoundry.Treasury

-- What one event says was paid as a reward, came in as a donation or went out as an allocation.
abbrev pub rewarded : Crowdloan.Event → ℕ
rewarded (reward_paid who amount) = amount
rewarded _ = 0

abbrev pub donated : Treasury.Event → ℕ
donated (donation_received who amount pot) = amount
donated _ = 0

abbrev pub allocated : Treasury.Event → ℕ
allocated (funds_allocated dest amount pot) = amount
allocated _ = 0

-- The most that an event's payment can burn: the minimum balance, of a payment out of the account.
abbrev pub reward_dust : ℕ → Crowdloan.Event → ℕ
reward_dust minimum (reward_paid who amount) = minimum
reward_dust minimum _ = 0

abbrev pub allocation_dust : ℕ → Treasury.Event → ℕ
allocation_dust minimum (funds_allocated dest amount pot) = minimum
allocation_dust minimum _ = 0

-- An account that held `held` and reported `out` as paid holds `held'` and reports `out'`: what it lost beyond
-- the reports was the dust of an account that was left empty, at most the difference of `dust` and `dust'`.
pub record Lossy (held out dust held' out' dust' : ℕ) : Type 0 where
  pub at_most : held' + out' ≤ held + out
  pub exact : (held' + out' ≡ held + out) ⊎ (held' ≡ 0)
  pub at_least : held + out + dust ≤ held' + out' + dust'

pub unchanged : {held out dust : ℕ} → Lossy held out dust held out dust
unchanged = record { at_most = omega arith; exact = inl refl; at_least = omega arith }

-- A crowdloan call that neither moves funds nor reports a reward.
abbrev pub Quiet : {L : Type 0} → ℕ → Crowdloan.Storage L → Crowdloan.Storage L → Type 0
Quiet minimum s t =
    (t.balances ≡ s.balances)
    × (sum_of rewarded t.events ≡ sum_of rewarded s.events)
    × (sum_of (reward_dust minimum) t.events ≡ sum_of (reward_dust minimum) s.events)

module _ {L Proof : Type 0} (cfg : Crowdloan.Config L Proof) where
  pub initialize_reward-Quiet :
      (o : Origin) (cs : List (ℕ × ℕ)) (rate end : ℕ) (s : Crowdloan.Storage L)
      → Quiet cfg.currency.minimum_balance s (initialize_reward cfg o cs rate end s).1
  unfolding initialize_reward
  initialize_reward-Quiet o cs rate end s = (ground arith, ground arith, ground arith)

  pub associate_account-Quiet :
      (o : Origin) (relay : ℕ) (proof : Proof) (s : Crowdloan.Storage L)
      → Quiet cfg.currency.minimum_balance s (associate_account cfg o relay proof s).1
  unfolding associate_account
  associate_account-Quiet (signed who) relay proof s =
      let event = Crowdloan.associated_account who relay in
      let reported = sum_of-push rewarded s.events event in
      let burnt = sum_of-push (reward_dust cfg.currency.minimum_balance) s.events event in
      (ground arith, ground (arith, reported), ground (arith, burnt))
  associate_account-Quiet root relay proof s = (refl, refl, refl)
  associate_account-Quiet unsigned relay proof s = (refl, refl, refl)

  pub update_associate_account-Quiet :
      (o : Origin) (native relay : ℕ) (proof : Proof) (s : Crowdloan.Storage L)
      → Quiet cfg.currency.minimum_balance s (update_associate_account cfg o native relay proof s).1
  unfolding update_associate_account
  update_associate_account-Quiet (signed who) native relay proof s =
      let event = Crowdloan.update_associated_account who relay in
      let reported = sum_of-push rewarded s.events event in
      let burnt = sum_of-push (reward_dust cfg.currency.minimum_balance) s.events event in
      (ground arith, ground (arith, reported), ground (arith, burnt))
  update_associate_account-Quiet root native relay proof s = (refl, refl, refl)
  update_associate_account-Quiet unsigned native relay proof s = (refl, refl, refl)

module _ {L Proof : Type 0} (cfg : Crowdloan.Config L Proof)
    (law : TransferMoves cfg.currency) where
  -- What the account pays is reported.
  pub get_money-paid :
      (who : ℕ) (s : Crowdloan.Storage L)
      → cfg.account_id ≢ who
      → let t = (get_money cfg (signed who) s).1 in
        let dust = reward_dust cfg.currency.minimum_balance in
        Lossy
          (cfg.currency.free_balance cfg.account_id s.balances)
          (sum_of rewarded s.events)
          (sum_of dust s.events)
          (cfg.currency.free_balance cfg.account_id t.balances)
          (sum_of rewarded t.events)
          (sum_of dust t.events)
  unfolding get_money
  get_money-paid who s ne = elim (Option-cases (lookup who s.associated_accounts)) [
    | inl e ↦ record { at_most = ground arith; exact = ground arith; at_least = ground arith }
    | inr (relay, ea) ↦ elim (Option-cases (lookup relay s.contributors)) [
      | inl e ↦ record { at_most = ground arith; exact = ground arith; at_least = ground arith }
      | inr (i, ei) ↦
          let due = amount_due s.reward_period s.block_number i in
          elim (Option-cases (cfg.currency.transfer cfg.account_id who due s.balances)) [
            | inl e ↦ record {
              at_most = ground arith;
              exact = ground arith;
              at_least = ground arith;
            }
            | inr (l, el) ↦
                let moved = law.moves cfg.account_id who due s.balances l el ne in
                let event = reward_paid who due in
                let reported = sum_of-push rewarded s.events event in
                let burnt = sum_of-push (reward_dust cfg.currency.minimum_balance) s.events event in
                record {
                  at_most = ground (arith, moved, reported);
                  exact = ground (arith, moved, reported);
                  at_least = ground (arith, moved, reported, burnt);
                }
          ]
    ]
  ]

module _ {L : Type 0} (cfg : Treasury.Config L) (law : TransferMoves cfg.currency) where
  abbrev pub account : Treasury.Storage L → ℕ
  account s = cfg.currency.free_balance cfg.account_id s.balances

  pub donate-reported :
      (o : Origin) (amount : ℕ) (s : Treasury.Storage L)
      → ((who : ℕ) → o ≡ signed who → who ≢ cfg.account_id)
      → let t = (donate cfg o amount s).1 in
        (account t + sum_of donated s.events ≡ account s + sum_of donated t.events)
        × (sum_of allocated t.events ≡ sum_of allocated s.events)
        × (sum_of (allocation_dust cfg.currency.minimum_balance) t.events
            ≡ sum_of (allocation_dust cfg.currency.minimum_balance) s.events)
  unfolding donate
  donate-reported (signed who) amount s foreign =
      elim (Option-cases (cfg.currency.transfer who cfg.account_id amount s.balances)) [
        | inl e ↦ (ground arith, ground arith, ground arith)
        | inr (l, el) ↦
            let event = donation_received who amount (pot cfg (record s { balances = l })) in
            let moved = law.moves who cfg.account_id amount s.balances l el (foreign who refl) in
            (
              ground (arith, moved, sum_of-push donated s.events event),
              ground (arith, sum_of-push allocated s.events event),
              ground (
                arith,
                sum_of-push (allocation_dust cfg.currency.minimum_balance) s.events event,
              ),
            )
      ]
  donate-reported root amount s foreign = (refl, refl, refl)
  donate-reported unsigned amount s foreign = (refl, refl, refl)

  pub allocate-reported :
      (o : Origin) (dest amount : ℕ) (s : Treasury.Storage L)
      → dest ≢ cfg.account_id
      → let t = (allocate cfg o dest amount s).1 in
        let dust = allocation_dust cfg.currency.minimum_balance in
        Lossy
          (account s)
          (sum_of allocated s.events)
          (sum_of dust s.events)
          (account t)
          (sum_of allocated t.events)
          (sum_of dust t.events)
        × (sum_of donated t.events ≡ sum_of donated s.events)
  unfolding allocate
  allocate-reported root dest amount s outward =
      elim (Option-cases (cfg.currency.transfer cfg.account_id dest amount s.balances)) [
        | inl e ↦ (
          record { at_most = ground arith; exact = ground arith; at_least = ground arith },
          ground arith,
        )
        | inr (l, el) ↦
            let event = funds_allocated dest amount (pot cfg (record s { balances = l })) in
            let moved =
              law.moves cfg.account_id dest amount s.balances l el (λ e. outward (sym e)) in
            let reported = sum_of-push allocated s.events event in
            let burnt = sum_of-push (allocation_dust cfg.currency.minimum_balance) s.events event in
            (
              record {
                at_most = ground (arith, moved, reported);
                exact = ground (arith, moved, reported);
                at_least = ground (arith, moved, reported, burnt);
              },
              ground (arith, sum_of-push donated s.events event),
            )
      ]
  allocate-reported (signed who) dest amount s outward = (unchanged, refl)
  allocate-reported unsigned dest amount s outward = (unchanged, refl)
