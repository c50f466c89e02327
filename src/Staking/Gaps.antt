-- ===== src/Staking/Gaps.antt =====
-- Calls of pallets/polkafoundry-staking/src/lib.rs after which the pallet's records and the balances
-- can part ways.
use polkafoundry.Base.{
  ℕ, ◌+◌, ◌-◌, ◌≤◌, ◌<◌, ◌≡◌, refl, arith, true, none, some, List, [], ◌∷◌, lookup, lookup-insert,
  lookup-erase, length, signed, ok, err, error, u128_mod, add_u128,
}
use polkafoundry.Staking.Types.{Bond, Leaving}
use polkafoundry.Staking.Types
use polkafoundry.Staking.Round.{next_round_index}
use polkafoundry.Staking.Search.{found, missing, binary_search}
use polkafoundry.Staking.Bonds.Chunks.{unbonded}
use polkafoundry.Staking.Bonds.Lookup.{binary_search_descending}
use polkafoundry.Staking.Collator
use polkafoundry.Staking.Collator.{StakingCollators, is_active}
use polkafoundry.Staking.Collator.Ledger.{IsBalanced, locked}
use polkafoundry.Staking.Nominator
use polkafoundry.Staking.Nominator.{StakingNominators}
use polkafoundry.Staking.State.{Config, Storage, withdraw_round}
use polkafoundry.Staking.Calls.{
  bond, bond_extra, leave_all, collator_unbond, record_nomination, nominate, bond_of,
}

module _ {L : Type 0} (cfg : Config L) where
  -- `bond` does not look at the result of `reserve`: where an account that is no collator bonds at
  -- least the minimum and cannot reserve the amount, the call still succeeds, the account is a
  -- collator with that amount, the recorded total stake grows by it, and no balance has changed.
  pub bond_without_funds :
      (who amount : ℕ) (s : Storage L)
      → lookup who s.collators ≡ none
      → cfg.min_collator_stake ≤ amount
      → cfg.currency.reserve who amount s.balances ≡ none
      → let (r, t) = bond cfg (signed who) amount s in
        (r ≡ ok tt)
        × (lookup who t.collators ≡ some (Collator.new amount (next_round_index s.current_round)))
        × (t.total_staked ≡ add_u128 s.total_staked amount)
        × (t.balances ≡ s.balances)
  unfolding bond
  bond_without_funds who amount s e h none_reserved = ground (
    arith,
    lookup-insert who who (Collator.new amount (next_round_index s.current_round)) s.collators,
  )

  -- `bond_extra` does not check its amount: an active collator whose total is below 2 ^ 128 may
  -- choose the extra amount with which its total wraps around to zero, and the call succeeds.
  pub bond_extra_wraps :
      (who : ℕ) (c : StakingCollators) (s : Storage L)
      → lookup who s.collators ≡ some c
      → is_active c ≡ true
      → c.total < u128_mod
      → let extra = u128_mod - c.total in
        let (r, t) = bond_extra cfg (signed who) extra s in
        (r ≡ ok tt) × (c' : StakingCollators) × (lookup who t.collators ≡ some c') × (c'.total ≡ 0)
  unfolding bond_extra Collator.bond_extra add_u128
  bond_extra_wraps who c s e a h =
      let extra = u128_mod - c.total in
      let c' = Collator.bond_extra extra (next_round_index s.current_round) c in
      (ground arith, c', ground (arith, lookup-insert who who c' s.collators), omega arith)

  leave_all-exit_queue :
      (bs : List Bond) (s : Storage L)
      → ((leave_all cfg bs s).exit_queue ≡ s.exit_queue)
        × ((leave_all cfg bs s).collators ≡ s.collators)
        × ((leave_all cfg bs s).total_staked ≡ s.total_staked)
  unfolding leave_all
  leave_all-exit_queue [] s = (refl, refl, refl)
  leave_all-exit_queue (b ∷ bs) s = leave_all-exit_queue bs _

  -- A collator with balanced books that unbonds is removed, and its exit, which is due after the
  -- bond duration, holds less than its total by exactly what is still locked.
  pub collator_unbond_forgets_locked :
      (who : ℕ) (c : StakingCollators) (s : Storage L)
      → lookup who s.collators ≡ some c
      → IsBalanced c
      → let (r, t) = collator_unbond cfg (signed who) s in
        (r ≡ ok tt)
        × (lookup who t.collators ≡ none)
        × ((e : Leaving) × (lookup who t.exit_queue ≡ some e)
            × (e.when ≡ withdraw_round s)
            × (e.remaining + unbonded e.unbonding + locked c.unlocking ≡ c.total))
  unfolding collator_unbond
  collator_unbond_forgets_locked who c s e v =
      let exit : Leaving = record {
        remaining = c.active;
        unbonding = c.unbonding;
        when = withdraw_round s;
      } in
      let left = leave_all-exit_queue c.nominations s in
      (
        ground arith,
        ground (arith, left, lookup-erase who who s.collators),
        (
          exit,
          ground (arith, left, lookup-insert who who exit s.exit_queue),
          refl,
          omega (arith, v.balanced),
        ),
      )

  -- A nominator whose two nominations stand in descending order nominates the first collator again,
  -- which is active, has room for a nomination and finds the nominator in its own ledger: with an
  -- amount of at least the minimum the call fails, but the nominator's recorded total has grown by
  -- the amount, while the balances, the collators and the recorded total stake are as before.
  pub nominate_again_leaks :
      (who amount : ℕ) (a b : Bond) (n : StakingNominators) (c : StakingCollators) (s : Storage L)
      → cfg.min_nominator_stake ≤ amount
      → lookup a.owner s.collators ≡ some c
      → is_active c ≡ true
      → length c.nominations < cfg.max_nominations_per_collator
      → (i : ℕ) → binary_search c.nominations (bond_of who amount) ≡ found i
      → lookup who s.nominators ≡ some n
      → n.nominations ≡ a ∷ b ∷ []
      → b.owner < a.owner
      → let (r, t) = nominate cfg (signed who) a.owner amount s in
        (r ≡ err (error Types.nomination_not_exist))
        × (t.balances ≡ s.balances)
        × (t.collators ≡ s.collators)
        × (t.total_staked ≡ s.total_staked)
        × (n' : StakingNominators) × (lookup who t.nominators ≡ some n')
        × (n'.total ≡ add_u128 n.total amount)
  unfolding nominate record_nomination Collator.add_nomination Nominator.add_nomination
  nominate_again_leaks who amount a b n c s h ec act room i hit en two desc =
      let x = bond_of a.owner amount in
      let n' = (Nominator.add_nomination x n).0 in
      let (j, miss) = binary_search_descending a b x desc refl in
      let asked : binary_search n.nominations x ≡ missing j = rw two miss in
      (
        ground arith,
        ground arith,
        ground arith,
        ground arith,
        n',
        ground (arith, lookup-insert who who n' s.nominators),
        ground arith,
      )
