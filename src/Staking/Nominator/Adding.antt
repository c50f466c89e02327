-- ===== src/Staking/Nominator/Adding.antt =====
-- `add_nomination` of both ledgers asks `binary_search` whether the owner is new, and then pushes the
-- bond at the end of the list.
use polkafoundry.Base.{
  ◌+◌, ◌<◌, ◌≡◌, ◌↔◌, inl, inr, arith, true, none, [], ◌∷◌, u128_mod, add_u128_exact, sum_of-append,
}
use polkafoundry.Staking.Types.{Bond}
use polkafoundry.Staking.Search.{missing, IsSorted, binary_search}
use polkafoundry.Staking.Bonds.Stakes.{stake_of, IsUnique, push-IsUnique}
use polkafoundry.Staking.Bonds.Lookup.{binary_search-cases, binary_search_descending}
use polkafoundry.Staking.Nominator.{StakingNominators, add_nomination}
use polkafoundry.Staking.Nominator.Ledger.{IsBalanced}

-- If a nominator's books balance and its nominations stand in strict order of their owners, a
-- nomination is added exactly if its owner has none yet, and the books stay balanced either way.
-- (The new total fits 128 bits.)
pub add_nomination-IsBalanced :
    (x : Bond) (n : StakingNominators)
    → IsBalanced n
    → IsSorted n.nominations
    → n.total + x.amount < u128_mod
    → IsBalanced (add_nomination x n).0
      × (((add_nomination x n).1 ≡ true) ↔ (stake_of x.owner n.nominations ≡ none))
unfolding add_nomination
add_nomination-IsBalanced x n v s h = elim (binary_search-cases n.nominations x s) [
  | inl (i, e, some_stake) ↦ ground arith
  | inr (i, e, no_stake) ↦ ground (
    arith,
    push-IsUnique x n.nominations v.unique,
    add_u128_exact n.total x.amount h,
    sum_of-append (λ (b : Bond). b.amount) n.nominations (x ∷ []),
  )
]

-- And they stay balanced if the owner has no nomination yet, in whatever order the nominations stand.
pub add_new_nomination-IsBalanced :
    (x : Bond) (n : StakingNominators)
    → IsBalanced n
    → stake_of x.owner n.nominations ≡ none
    → n.total + x.amount < u128_mod
    → IsBalanced (add_nomination x n).0
unfolding add_nomination
add_new_nomination-IsBalanced x n v no_stake h = ground (
  arith,
  push-IsUnique x n.nominations v.unique,
  add_u128_exact n.total x.amount h,
  sum_of-append (λ (b : Bond). b.amount) n.nominations (x ∷ []),
)

-- Where a nominator's two nominations stand in descending order, a second nomination of the first
-- owner is accepted, and the owner then has two bonds.
pub add_nomination_twice :
    (a b x : Bond) (n : StakingNominators)
    → n.nominations ≡ a ∷ b ∷ []
    → b.owner < a.owner
    → x.owner ≡ a.owner
    → ((add_nomination x n).1 ≡ true) × ¬ IsUnique (add_nomination x n).0.nominations
unfolding add_nomination
add_nomination_twice a b x n e h k =
    let (i, miss) = binary_search_descending a b x h k in
    let asked : binary_search n.nominations x ≡ missing i = rw e miss in
    (ground arith, λ u. ground arith)
