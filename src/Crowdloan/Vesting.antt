-- ===== src/Crowdloan/Vesting.antt =====
-- Claims (`get_money` of pallets/crowdloan-rewards/src/lib.rs) at block after block, against one formula for
-- what a contributor has vested.
use polkafoundry.Base.{
  ℕ, ◌-◌, ◌*◌, ◌/◌, ◌≤◌, ◌<◌, ◌≡◌, refl, ap, ◌∙◌, arith, min, some, List, [], ◌∷◌, lookup,
  lookup-insert, u128_mod, signed, ltb, Bool-cases, inl, inr,
}
use polkafoundry.Crowdloan.{RewardInfo, Config, Storage, paid, get_money}
use polkafoundry.Crowdloan.Paying.{IsWithin, amount_due_lem, paid-IsWithin, split_earned}

-- What a total has vested at a block: the reward of a block for each block since the start, up to the total.
abbrev pub vested : ℕ → ℕ → ℕ → ℕ → ℕ
vested total period start now = min (total / period * (now - start)) total

-- A record that has claimed what is vested at a block.
pub record Follows (total period start now : ℕ) (i : RewardInfo) : Type 0 where
  pub same_total : i.total_reward ≡ total
  pub claimed : i.claimed_reward ≡ vested total period start now
  pub current : i.claimed_reward < total → i.last_paid ≡ now
  pub since : start ≤ now

module _ (total period start now later : ℕ) (i : RewardInfo) (bounded : total < u128_mod)
    (h : now ≤ later) (f : Follows total period start now i) where
  paid-Follows : i.claimed_reward < total → Follows total period start later (paid period later i)
  unfolding paid
  paid-Follows left =
      let within : IsWithin i = record {
        claimed = omega (arith, f.same_total);
        bounded = omega (arith, f.same_total);
      } in
      record {
        same_total = f.same_total;
        claimed = ground (
          arith,
          f.same_total,
          f.claimed,
          f.current left,
          (paid-IsWithin period later i within).1,
          amount_due_lem period later i within,
          split_earned (total / period) start now later f.since h,
        );
        current = λ _. refl;
        since = omega (arith, f.since);
      }

  done-Follows : total ≤ i.claimed_reward → Follows total period start later i
  done-Follows done = record {
    same_total = f.same_total;
    claimed =
        omega (arith, f.claimed, f.since, split_earned (total / period) start now later f.since h);
    current = λ left. absurd (omega arith);
    since = omega (arith, f.since);
  }

module _ {L Proof : Type 0} (cfg : Config L Proof) where
  -- The calls `get_money` of one account at the blocks of a list, one after another.
  unfoldable pub claims : ℕ → List ℕ → Storage L → Storage L
  unfolding get_money
  claims who [] s = s
  claims who (now ∷ later) s =
      claims who later (get_money cfg (signed who) (record s { block_number = now })).1

  abbrev pub last_block : ℕ → List ℕ → ℕ
  last_block now [] = now
  last_block now (n ∷ ns) = last_block n ns

  abbrev pub IsOrdered : ℕ → List ℕ → Type 0
  IsOrdered now [] = Unit
  IsOrdered now (n ∷ ns) = (now ≤ n) × IsOrdered n ns

  -- The account stands for a relay account whose record follows the vesting.
  pub record Claiming (who relay total period start now : ℕ) (s : Storage L) : Type 0 where
    pub associated : lookup who s.associated_accounts ≡ some relay
    pub info : RewardInfo
    pub listed : lookup relay s.contributors ≡ some info
    pub follows : Follows total period start now info
    pub same_period : s.reward_period ≡ period

  -- What a claim, refused or not, leaves in the storage.
  get_money-booked :
      (who relay : ℕ) (i : RewardInfo) (s : Storage L)
      → lookup who s.associated_accounts ≡ some relay
      → lookup relay s.contributors ≡ some i
      → i.claimed_reward < i.total_reward
      → 0 < s.reward_period
      → let t = (get_money cfg (signed who) s).1 in
        (lookup who t.associated_accounts ≡ some relay)
        × (lookup relay t.contributors ≡ some (paid s.reward_period s.block_number i))
        × (t.reward_period ≡ s.reward_period)
  unfolding get_money
  get_money-booked who relay i s ea ei left some_period =
      let booked =
        lookup-insert relay relay (paid s.reward_period s.block_number i) s.contributors in
      (ground (arith, booked), ground (arith, booked), ground (arith, booked))

  get_money-Claiming :
      (who relay total period start now later : ℕ) (s : Storage L)
      → total < u128_mod
      → 0 < period
      → now ≤ later
      → Claiming who relay total period start now s
      → Claiming who relay total period start later
          (get_money cfg (signed who) (record s { block_number = later })).1
  unfolding get_money
  get_money-Claiming who relay total period start now later s bounded some_period h c =
      elim (Bool-cases (ltb c.info.claimed_reward c.info.total_reward)) [
        | inl left ↦
            let open_reward : c.info.claimed_reward < c.info.total_reward = ground arith in
            let at_block : Storage L = record s { block_number = later } in
            let booked =
              get_money-booked who relay c.info at_block c.associated c.listed open_reward
                (omega (arith, c.same_period)) in
            record {
              associated = booked.0;
              info = paid period later c.info;
              listed = booked.1 ∙ ap (λ p. some (paid p later c.info)) c.same_period;
              follows =
                  paid-Follows total period start now later c.info bounded h c.follows
                    (omega (arith, open_reward, c.follows.same_total));
              same_period = booked.2 ∙ c.same_period;
            }
        | inr done ↦ record {
          associated = ground (arith, c.associated, c.listed);
          info = c.info;
          listed = ground (arith, c.associated, c.listed);
          follows =
              done-Follows total period start now later c.info bounded h c.follows
                (ground (arith, c.follows.same_total));
          same_period = ground (arith, c.associated, c.listed, c.same_period);
        }
      ]

  claims-Claiming :
      (who relay total period start now : ℕ) (blocks : List ℕ) (s : Storage L)
      → total < u128_mod
      → 0 < period
      → IsOrdered now blocks
      → Claiming who relay total period start now s
      → Claiming who relay total period start (last_block now blocks) (claims who blocks s)
  unfolding claims
  claims-Claiming who relay total period start now [] s bounded some_period ordered c = c
  claims-Claiming who relay total period start now (n ∷ ns) s bounded some_period ordered c =
      claims-Claiming who relay total period start n ns _ bounded some_period ordered.1
        (get_money-Claiming who relay total period start now n s bounded some_period ordered.0 c)

  -- A contributor that has claimed nothing yet since the start of a period claims at any blocks, none before
  -- the one before it. However often it claims, and whether the calls succeed or not, its record counts
  -- as claimed exactly what has vested at the last of these blocks: the reward of a block, the total
  -- divided by the period and rounded down, for each block since the start, up to the total.
  pub claims-vested :
      (who relay : ℕ) (i : RewardInfo) (blocks : List ℕ) (s : Storage L)
      → lookup who s.associated_accounts ≡ some relay
      → lookup relay s.contributors ≡ some i
      → i.claimed_reward ≡ 0
      → i.total_reward < u128_mod
      → 0 < s.reward_period
      → IsOrdered i.last_paid blocks
      → (j : RewardInfo) × (lookup relay (claims who blocks s).contributors ≡ some j)
        × (j.total_reward ≡ i.total_reward)
        × (j.claimed_reward
            ≡ vested i.total_reward s.reward_period i.last_paid (last_block i.last_paid blocks))
  claims-vested who relay i blocks s ea ei nothing bounded some_period ordered =
      let begun : Claiming who relay i.total_reward s.reward_period i.last_paid i.last_paid s =
        record {
          associated = ea;
          info = i;
          listed = ei;
          follows = record {
            same_total = refl;
            claimed = nothing ∙ nothing_vested;
            current = λ _. refl;
            since = omega arith;
          };
          same_period = refl;
        } in
      let ended =
        claims-Claiming who relay i.total_reward s.reward_period i.last_paid i.last_paid blocks s
          bounded some_period ordered begun in
      (ended.info, ended.listed, ended.follows.same_total, ended.follows.claimed)
    where
      no_blocks : i.last_paid - i.last_paid ≡ 0
      no_blocks = omega arith

      nothing_vested : 0 ≡ vested i.total_reward s.reward_period i.last_paid i.last_paid
      nothing_vested = rw no_blocks (omega arith)
