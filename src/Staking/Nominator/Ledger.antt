-- ===== src/Staking/Nominator/Ledger.antt =====
-- The books of a nominator (`StakingNominators` of pallets/polkafoundry-staking/src/lib.rs): its
-- total against what it has nominated and what is unbonding.
use polkafoundry.Base.{
  ℕ, ◌+◌, ◌<◌, ◌≡◌, arith, none, [], ◌∷◌, u128_mod, add_u128_exact, sum_of-append, inl, inr,
  Option-cases,
}
use polkafoundry.Staking.Types.{Bond, UnBondChunk}
use polkafoundry.Staking.Bonds.Chunks.{unbonded, due, release-sum}
use polkafoundry.Staking.Bonds.Stakes.{
  stake_of, amounts, IsUnique, grow_bond-stake, grow_bond-IsUnique, grow_bond-amounts,
  shrink_bond-stake, shrink_bond-IsUnique, shrink_bond-amounts, drop_bonds_lem, drop_bonds-IsUnique,
  drop_bonds-amounts,
}
use polkafoundry.Staking.Nominator.{
  StakingNominators, nominate_extra, nominate_less, consolidate_unbonded, rm_nomination,
}

pub record IsBalanced (n : StakingNominators) : Type 0 where
  pub balanced : n.total ≡ amounts n.nominations + unbonded n.unbonding
  pub bounded : n.total < u128_mod
  pub unique : IsUnique n.nominations

-- Growing a nomination keeps the books balanced.
pub nominate_extra-IsBalanced :
    (x : Bond) (n : StakingNominators)
    → IsBalanced n
    → n.total + x.amount < u128_mod
    → IsBalanced (nominate_extra x n).0
unfolding nominate_extra
nominate_extra-IsBalanced x n v h = ground (
  arith,
  grow_bond-stake x n.nominations x.owner,
  grow_bond-IsUnique x n.nominations v.unique,
  grow_bond-amounts x n.nominations,
  add_u128_exact n.total x.amount h,
)

-- Shrinking a nomination, whether it succeeds or not, keeps a nominator's books balanced: the total
-- is the nominations and the unbonding chunks together, and no collator has two of the nominations.
pub nominate_less-IsBalanced :
    (x : Bond) (when : ℕ) (n : StakingNominators)
    → IsBalanced n
    → IsBalanced (nominate_less x when n).0
unfolding nominate_less
nominate_less-IsBalanced x when n v = ground (
  arith,
  shrink_bond-stake x n.nominations x.owner,
  shrink_bond-IsUnique x n.nominations v.unique,
  shrink_bond-amounts x n.nominations,
  sum_of-append (λ (k : UnBondChunk). k.value) n.unbonding
      (record { value = x.amount; round = when } ∷ []),
)

-- Leaving a collator keeps a nominator's books balanced: the total is the nominations and the
-- unbonding chunks together, and no collator has two of the nominations.
pub rm_nomination-IsBalanced :
    (candidate when : ℕ) (n : StakingNominators)
    → IsBalanced n
    → IsBalanced (rm_nomination candidate when n).0
unfolding rm_nomination
rm_nomination-IsBalanced o when n v = elim (Option-cases (stake_of o n.nominations)) [
  | inl e ↦ ground (arith, drop_bonds_lem o n.nominations v.unique)
  | inr (a, e) ↦ ground (
    arith,
    drop_bonds_lem o n.nominations v.unique,
    drop_bonds-IsUnique o none n.nominations v.unique,
    drop_bonds-amounts o none n.nominations v.unique,
    sum_of-append (λ (k : UnBondChunk). k.value) n.unbonding
        (record { value = a; round = when } ∷ []),
  )
]

-- Releasing what has come due keeps the books balanced, and the total falls by exactly that amount.
pub consolidate_unbonded-IsBalanced :
    (r : ℕ) (n : StakingNominators)
    → IsBalanced n
    → IsBalanced (consolidate_unbonded r n)
      × ((consolidate_unbonded r n).total + due r n.unbonding ≡ n.total)
unfolding consolidate_unbonded
consolidate_unbonded-IsBalanced r n v =
    ground (arith, v.balanced, v.bounded, release-sum r n.total n.unbonding)
