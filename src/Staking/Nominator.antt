-- ===== src/Staking/Nominator.antt =====
-- `StakingNominators` of pallets/polkafoundry-staking/src/lib.rs: the ledger of a nominator and its
-- methods.
pub mod Ledger
pub mod Adding
use polkafoundry.Base.{ℕ, Bool, true, false, Option, none, some, List, [], push, add_u128}
use polkafoundry.Staking.Types.{Bond, UnBondChunk}
use polkafoundry.Staking.Search.{found, missing, binary_search}
use polkafoundry.Staking.Bonds.{release, grow_bond, shrink_bond, drop_bonds}

pub record StakingNominators : Type 0 where
  pub nominations : List Bond
  pub total : ℕ
  pub unbonding : List UnBondChunk
  pub claimed_rewards : List ℕ

unfoldable pub new : List Bond → ℕ → StakingNominators
new nominations amount = record {
  nominations = nominations;
  total = amount;
  unbonding = [];
  claimed_rewards = [];
}

unfoldable pub add_nomination : Bond → StakingNominators → StakingNominators × Bool
add_nomination nomination n = elim (binary_search n.nominations nomination) [
  | found i ↦ (n, false)
  | missing i ↦ (
    record n {
      total = add_u128 n.total nomination.amount;
      nominations = push n.nominations nomination;
    },
    true,
  )
]

unfoldable pub nominate_extra : Bond → StakingNominators → StakingNominators × Option ℕ
nominate_extra extra n =
    let (bonds, r) = grow_bond extra n.nominations in
    elim r [
      | none ↦ (n, none)
      | some amount ↦
          (record n { total = add_u128 n.total extra.amount; nominations = bonds }, some amount)
    ]

unfoldable pub nominate_less : Bond → ℕ → StakingNominators → StakingNominators × Option (Option ℕ)
nominate_less less can_withdraw_round n =
    let (bonds, r) = shrink_bond less n.nominations in
    elim r [
      | none ↦ (n, none)
      | some none ↦ (n, some none)
      | some (some amount) ↦ (
        record n {
          nominations = bonds;
          unbonding = push n.unbonding (record { value = less.amount; round = can_withdraw_round });
        },
        some (some amount),
      )
    ]

unfoldable pub consolidate_unbonded : ℕ → StakingNominators → StakingNominators
consolidate_unbonded current_round n =
    let (total, unbonding) = release current_round n.total n.unbonding in
    record n { total = total; unbonding = unbonding }

unfoldable pub rm_nomination : ℕ → ℕ → StakingNominators → StakingNominators × Option ℕ
rm_nomination candidate can_withdraw_round n =
    let (bonds, less) = drop_bonds candidate none n.nominations in
    elim less [
      | none ↦ (n, none)
      | some amount ↦ (
        record n {
          nominations = bonds;
          unbonding = push n.unbonding (record { value = amount; round = can_withdraw_round });
        },
        some n.total,
      )
    ]
