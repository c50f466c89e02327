-- ===== src/Crowdloan/Reach.antt =====
-- The life of the crowdloan pallet as a step relation: its calls in any order by any origin, and new
-- blocks; and what holds of every storage that is reached.
use mathlib.Core.Path.{subst}
use polkafoundry.Base.{
  ℕ, ◌<◌, ◌≡◌, ◌≢◌, arith, some, List, [], ◌∷◌, Map, lookup, insert, u32_mod, sub_u32_exact,
  saturating_mul_u128, Origin, root, signed, unsigned, err, panicked, ltb, leb, Bool-cases,
  Option-cases, inl, inr, sym, ◌∙◌,
}
use polkafoundry.Crowdloan.{
  RewardInfo, Config, Storage, amount_due, paid, add_contributors, initialize_reward,
  associate_account, update_associate_account, get_money,
}
use polkafoundry.Crowdloan.Paying.{IsWithin, paid-IsWithin}
use polkafoundry.Crowdloan.Setup.{fresh}

abbrev pub AllWithin : Map RewardInfo → Type 0
AllWithin [] = Unit
AllWithin ((k, i) ∷ m) = IsWithin i × AllWithin m

pub lookup-AllWithin :
    (k : ℕ) (i : RewardInfo) (m : Map RewardInfo) → AllWithin m → lookup k m ≡ some i → IsWithin i
lookup-AllWithin k i [] a h = cc
lookup-AllWithin k i ((j, d) ∷ m) a h = ground (arith, lookup-AllWithin k i m a.1)

insert-AllWithin :
    (k : ℕ) (i : RewardInfo) (m : Map RewardInfo)
    → AllWithin m
    → IsWithin i
    → AllWithin (insert k i m)
insert-AllWithin k i [] a h = (h, tt)
insert-AllWithin k i ((j, d) ∷ m) a h = ground (arith, insert-AllWithin k i m a.1 h)

pub fresh-IsWithin : (now rate amount : ℕ) → IsWithin (fresh now rate amount)
unfolding saturating_mul_u128
fresh-IsWithin now rate amount = omega arith

add_contributors-AllWithin :
    (now rate : ℕ) (cs : List (ℕ × ℕ)) (m : Map RewardInfo)
    → AllWithin m
    → AllWithin (add_contributors now rate cs m)
unfolding add_contributors
add_contributors-AllWithin now rate [] m a = a
add_contributors-AllWithin now rate ((k, x) ∷ cs) m a =
    add_contributors-AllWithin now rate cs _
      (insert-AllWithin k (fresh now rate x) m a (fresh-IsWithin now rate x))

-- No one has claimed more than its reward, and where there are contributors the period is not empty.
pub record IsSound {L : Type 0} (s : Storage L) : Type 0 where
  pub within : AllWithin s.contributors
  pub started : s.contributors ≢ [] → 0 < s.reward_period

module _ {L Proof : Type 0} (cfg : Config L Proof) where
  initialize_reward-IsSound :
      (o : Origin) (cs : List (ℕ × ℕ)) (rate end : ℕ) (s : Storage L)
      → IsSound s
      → end < u32_mod
      → IsSound (initialize_reward cfg o cs rate end s).1
  unfolding initialize_reward
  initialize_reward-IsSound root cs rate end s v h = elim (Bool-cases (ltb s.block_number end)) [
    | inr late ↦ rw late v
    | inl t ↦ elim (Bool-cases (leb s.current_reward_end_in s.block_number)) [
      | inr early ↦ rw (t, early) v
      | inl q ↦
          rw (t, q)
            (record {
              within = add_contributors-AllWithin s.block_number rate cs s.contributors v.within;
              started = λ some_listed. ground (arith, sub_u32_exact end s.block_number);
            })
    ]
  ]
  initialize_reward-IsSound (signed w) cs rate end s v h = v
  initialize_reward-IsSound unsigned cs rate end s v h = v

  ne_nil_of_lookup : (k : ℕ) (j : RewardInfo) (m : Map RewardInfo) → lookup k m ≡ some j → m ≢ []
  ne_nil_of_lookup k j [] h e = cc
  ne_nil_of_lookup k j (x ∷ m) h e = cc

  get_money-IsSound : (o : Origin) (s : Storage L) → IsSound s → IsSound (get_money cfg o s).1
  unfolding get_money
  get_money-IsSound (signed who) s v = elim (Option-cases (lookup who s.associated_accounts)) [
    | inl e ↦ ground arith
    | inr (relay, ea) ↦ elim (Option-cases (lookup relay s.contributors)) [
      | inl e ↦ ground arith
      | inr (i, ei) ↦
          let i' = paid s.reward_period s.block_number i in
          let sound = lookup-AllWithin relay i s.contributors v.within ei in
          ground (
            arith,
            insert-AllWithin relay i' s.contributors v.within
                (paid-IsWithin s.reward_period s.block_number i sound).0,
            v.started (ne_nil_of_lookup relay i s.contributors ei),
          )
    ]
  ]
  get_money-IsSound root s v = v
  get_money-IsSound unsigned s v = v

  associate_account-contributors :
      (o : Origin) (relay : ℕ) (proof : Proof) (s : Storage L)
      → ((associate_account cfg o relay proof s).1.contributors ≡ s.contributors)
        × ((associate_account cfg o relay proof s).1.reward_period ≡ s.reward_period)
  unfolding associate_account
  associate_account-contributors o relay proof s = ground arith

  update_associate_account-contributors :
      (o : Origin) (native relay : ℕ) (proof : Proof) (s : Storage L)
      → ((update_associate_account cfg o native relay proof s).1.contributors ≡ s.contributors)
        × ((update_associate_account cfg o native relay proof s).1.reward_period ≡ s.reward_period)
  unfolding update_associate_account
  update_associate_account-contributors o native relay proof s = ground arith

  IsSound-of_eq :
      {s t : Storage L}
      → (t.contributors ≡ s.contributors) × (t.reward_period ≡ s.reward_period)
      → IsSound s
      → IsSound t
  IsSound-of_eq e v = record {
    within = subst AllWithin (sym e.0) v.within;
    started = λ n. rw e.1 (v.started (λ z. n (e.0 ∙ z)));
  }

  -- One thing that happens to the pallet. A period's end is a block number, below 2 ^ 32.
  pub data Step : Storage L → Storage L → Type 0 where
    initialize :
        (o : Origin) (cs : List (ℕ × ℕ)) (rate end : ℕ) (s : Storage L)
        → end < u32_mod
        → Step s (initialize_reward cfg o cs rate end s).1
    associate :
        (o : Origin) (relay : ℕ) (proof : Proof) (s : Storage L)
        → Step s (associate_account cfg o relay proof s).1
    update :
        (o : Origin) (native relay : ℕ) (proof : Proof) (s : Storage L)
        → Step s (update_associate_account cfg o native relay proof s).1
    claim : (o : Origin) (s : Storage L) → Step s (get_money cfg o s).1
    block : (now : ℕ) (s : Storage L) → Step s (record s { block_number = now })

  pub data Reach (s : Storage L) : Storage L → Type 0 where
    here : Reach s s
    next : {t v : Storage L} → Reach s t → Step t v → Reach s v

  Step-IsSound : {s t : Storage L} → Step s t → IsSound s → IsSound t
  Step-IsSound (initialize o cs rate end s h) v = initialize_reward-IsSound o cs rate end s v h
  Step-IsSound (associate o relay proof s) v =
      IsSound-of_eq (associate_account-contributors o relay proof s) v
  Step-IsSound (update o native relay proof s) v =
      IsSound-of_eq (update_associate_account-contributors o native relay proof s) v
  Step-IsSound (claim o s) v = get_money-IsSound o s v
  Step-IsSound (block now s) v = record { within = v.within; started = v.started }

  -- In whatever order calls and blocks come, no contributor has claimed more than its reward in any storage
  -- that is reached from a sound one, and the reward period is not zero where there are contributors.
  pub Reach-IsSound : {s t : Storage L} → IsSound s → Reach s t → IsSound t
  Reach-IsSound v here = v
  Reach-IsSound v (next r st) = Step-IsSound st (Reach-IsSound v r)

  -- A claim by any origin does not panic (the reward period that it divides by is not zero) in any storage
  -- that is reached from a sound one.
  pub get_money_no_panic :
      (o : Origin) {s t : Storage L} → IsSound s → Reach s t → (get_money cfg o t).0 ≢ err panicked
  unfolding get_money
  get_money_no_panic (signed who) {t = t} v r h =
      elim (Option-cases (lookup who t.associated_accounts)) [
        | inl e ↦ ground arith
        | inr (relay, ea) ↦ elim (Option-cases (lookup relay t.contributors)) [
          | inl e ↦ ground arith
          | inr (i, ei) ↦
              let pos = (Reach-IsSound v r).started (ne_nil_of_lookup relay i t.contributors ei) in
              elim (Option-cases (
                cfg.currency.transfer cfg.account_id who
                  (amount_due t.reward_period t.block_number i) t.balances)) [
                    | inl e ↦ ground arith
                    | inr (l, el) ↦ ground arith
                  ]
        ]
      ]
  get_money_no_panic root v r h = ground arith
  get_money_no_panic unsigned v r h = ground arith
