-- ===== src/Runtime/Audit.antt =====
-- The books of the treasury's account in runtime/halongbay/src/lib.rs: what the events of the two pallets
-- report against what the account holds.
use polkafoundry.Base.{
  ℕ, ◌+◌, ◌≤◌, ◌⊎◌, inl, inr, ◌≡◌, ◌≢◌, refl, sym, arith, List, [], ◌∷◌, sum_of, Origin, root,
  signed, unsigned,
}
use polkafoundry.Currency.{TransferMoves}
use polkafoundry.Crowdloan.{
  initialize_reward, associate_account, update_associate_account, get_money,
}
use polkafoundry.Crowdloan
use polkafoundry.Runtime.{
  RuntimeCall, crowdloan_initialize_reward, crowdloan_associate_account,
  crowdloan_update_associate_account, crowdloan_get_money, treasury_donate, treasury_allocate,
  RuntimeConfig, Chain, crowdloan_config, treasury_config, treasury_storage, dispatch, Happening,
  extrinsic, new_block, elsewhere, happen, happen_all,
}
use polkafoundry.Runtime.Reports.{
  rewarded, donated, allocated, reward_dust, allocation_dust, Quiet, initialize_reward-Quiet,
  associate_account-Quiet, update_associate_account-Quiet, get_money-paid, donate-reported,
  allocate-reported,
}

module _ {L : Type 0} where
  -- All that the events say came into the account, and all that they say went out.
  abbrev pub income : Chain L → ℕ
  income c = sum_of donated c.treasury_events

  abbrev pub spending : Chain L → ℕ
  spending c = sum_of rewarded c.crowdloan.events + sum_of allocated c.treasury_events

module _ {L Proof : Type 0} (cfg : RuntimeConfig L Proof) where
  abbrev pub holds : Chain L → ℕ
  holds c = cfg.currency.free_balance cfg.treasury_account c.crowdloan.balances

  -- The caller is not the treasury's account, which has no key.
  abbrev pub IsForeign : Origin → Type 0
  IsForeign (signed who) = who ≢ cfg.treasury_account
  IsForeign _ = Unit

  abbrev pub IsOutward : RuntimeCall Proof → Type 0
  IsOutward (treasury_allocate dest amount) = dest ≢ cfg.treasury_account
  IsOutward _ = Unit

  -- No call is by the treasury's account or allocates funds to it, and no other pallet touches it.
  abbrev pub IsOrdinary : Happening L Proof → Type 0
  IsOrdinary (extrinsic o call) = IsForeign o × IsOutward call
  IsOrdinary (new_block now) = Unit
  IsOrdinary (elsewhere f) =
      (l : L)
      → cfg.currency.free_balance cfg.treasury_account (f l)
        ≡ cfg.currency.free_balance cfg.treasury_account l

  abbrev pub AllOrdinary : List (Happening L Proof) → Type 0
  AllOrdinary [] = Unit
  AllOrdinary (h ∷ hs) = IsOrdinary h × AllOrdinary hs

  -- The most that the reported payments can have burnt: the minimum balance each.
  abbrev pub dust : Chain L → ℕ
  dust c =
      sum_of (reward_dust cfg.currency.minimum_balance) c.crowdloan.events
      + sum_of (allocation_dust cfg.currency.minimum_balance) c.treasury_events

  -- At some point the account is empty.
  abbrev pub Emptied : List (Happening L Proof) → Chain L → Type 0
  Emptied [] c = ⊥
  Emptied (h ∷ hs) c = (holds (happen cfg h c) ≡ 0) ⊎ Emptied hs (happen cfg h c)

  -- From one storage to the next, the account gained what the events report, or it was emptied (`empty`) and
  -- lost the dust, at most the minimum balance for each payment out of it.
  pub record Balanced (empty : Type 0) (c d : Chain L) : Type 0 where
    pub at_most : holds d + spending d + income c ≤ holds c + spending c + income d
    pub exact : (holds d + spending d + income c ≡ holds c + spending c + income d) ⊎ empty
    pub at_least :
        holds c + spending c + income d + dust c ≤ holds d + spending d + income c + dust d

  abbrev Kept : Chain L → Chain L → Type 0
  Kept c d = Balanced (holds d ≡ 0) c d

module _ {L Proof : Type 0} (cfg : RuntimeConfig L Proof) (law : TransferMoves cfg.currency) where
  Quiet-Balanced :
      (c : Chain L) (s : Crowdloan.Storage L)
      → Quiet cfg.currency.minimum_balance c.crowdloan s
      → Kept cfg c (record c { crowdloan = s })
  Quiet-Balanced c s q = record {
    at_most = rw (q.0, q.1) (omega arith);
    exact = inl (rw (q.0, q.1) refl);
    at_least = rw (q.0, q.1, q.2) (omega arith);
  }

  still : (c : Chain L) → Kept cfg c c
  still c = record { at_most = omega arith; exact = inl refl; at_least = omega arith }

  get_money-Balanced :
      (o : Origin) (c : Chain L)
      → IsForeign cfg o
      → Kept cfg c (dispatch cfg o crowdloan_get_money c)
  unfolding dispatch get_money
  get_money-Balanced (signed who) c foreign =
      let paid = get_money-paid (crowdloan_config cfg) law who c.crowdloan (λ e. foreign (sym e)) in
      record {
        at_most = omega (arith, paid.at_most);
        exact = ground (arith, paid.exact);
        at_least = omega (arith, paid.at_least);
      }
  get_money-Balanced root c foreign = still c
  get_money-Balanced unsigned c foreign = still c

  foreign_caller :
      (o : Origin) → IsForeign cfg o → (who : ℕ) → o ≡ signed who → who ≢ cfg.treasury_account
  foreign_caller (signed w) foreign who e = ground arith
  foreign_caller root foreign who e = absurd (ground arith)
  foreign_caller unsigned foreign who e = absurd (ground arith)

  dispatch-Balanced :
      (o : Origin) (call : RuntimeCall Proof) (c : Chain L)
      → IsForeign cfg o
      → IsOutward cfg call
      → Kept cfg c (dispatch cfg o call c)
  unfolding dispatch
  dispatch-Balanced o (crowdloan_initialize_reward cs rate end) c foreign outward =
      Quiet-Balanced c (initialize_reward (crowdloan_config cfg) o cs rate end c.crowdloan).1
        (initialize_reward-Quiet (crowdloan_config cfg) o cs rate end c.crowdloan)
  dispatch-Balanced o (crowdloan_associate_account relay proof) c foreign outward =
      Quiet-Balanced c (associate_account (crowdloan_config cfg) o relay proof c.crowdloan).1
        (associate_account-Quiet (crowdloan_config cfg) o relay proof c.crowdloan)
  dispatch-Balanced o (crowdloan_update_associate_account native relay proof) c foreign outward =
      Quiet-Balanced c
        (update_associate_account (crowdloan_config cfg) o native relay proof c.crowdloan).1
        (update_associate_account-Quiet (crowdloan_config cfg) o native relay proof c.crowdloan)
  dispatch-Balanced o crowdloan_get_money c foreign outward = get_money-Balanced o c foreign
  dispatch-Balanced o (treasury_donate amount) c foreign outward =
      let reported =
        donate-reported (treasury_config cfg) law o amount (treasury_storage c)
          (foreign_caller o foreign) in
      record {
        at_most = omega (arith, reported.0, reported.1);
        exact = inl (omega (arith, reported.0, reported.1));
        at_least = omega (arith, reported.0, reported.1, reported.2);
      }
  dispatch-Balanced o (treasury_allocate dest amount) c foreign outward =
      let reported =
        allocate-reported (treasury_config cfg) law o dest amount (treasury_storage c) outward in
      let paid = reported.0 in
      record {
        at_most = omega (arith, paid.at_most, reported.1);
        exact = ground (arith, paid.exact, reported.1);
        at_least = omega (arith, paid.at_least, reported.1);
      }

  happen-Balanced :
      (h : Happening L Proof) (c : Chain L) → IsOrdinary cfg h → Kept cfg c (happen cfg h c)
  unfolding happen
  happen-Balanced (extrinsic o call) c ordinary = dispatch-Balanced o call c ordinary.0 ordinary.1
  happen-Balanced (new_block now) c ordinary = record {
    at_most = omega arith;
    exact = inl refl;
    at_least = omega arith;
  }
  happen-Balanced (elsewhere f) c ordinary = record {
    at_most = omega (arith, ordinary c.crowdloan.balances);
    exact = inl (omega (arith, ordinary c.crowdloan.balances));
    at_least = omega (arith, ordinary c.crowdloan.balances);
  }

  -- Whatever calls of the two pallets by whatever origins, blocks and changes of the balances by other
  -- pallets follow one another, successful or not: what the treasury's account holds has changed by
  -- exactly the donations less the rewards and allocations that the events report, unless a payment emptied it
  -- on the way. In that case too it has not gained more, and what it lost beyond them is at most the minimum
  -- balance for each reward and each allocation. No call is by that account itself or allocates funds to it,
  -- no other pallet changes its balance, and transfers move what they are documented to move.
  pub happen_all-Balanced :
      (hs : List (Happening L Proof)) (c : Chain L)
      → AllOrdinary cfg hs
      → Balanced cfg (Emptied cfg hs c) c (happen_all cfg hs c)
  unfolding happen_all
  happen_all-Balanced [] c ordinary = record {
    at_most = omega arith;
    exact = inl refl;
    at_least = omega arith;
  }
  happen_all-Balanced (h ∷ hs) c ordinary =
      let first = happen-Balanced h c ordinary.0 in
      let rest = happen_all-Balanced hs (happen cfg h c) ordinary.1 in
      record {
        at_most = omega (arith, first.at_most, rest.at_most);
        exact = elim first.exact [
          | inr empty ↦ inr (inl empty)
          | inl once ↦ elim rest.exact [
            | inr later ↦ inr (inr later)
            | inl more ↦ inl (omega (arith, once, more))
          ]
        ];
        at_least = omega (arith, first.at_least, rest.at_least);
      }
