-- ===== src/Staking/Collator.antt =====
-- `StakingCollators` of pallets/polkafoundry-staking/src/lib.rs: the ledger of a collator and its
-- methods. A method on `&mut self` returns the new ledger with its result; the unlocking and
-- unbonding chunks wait for their round.
pub mod Ledger
use polkafoundry.Base.{
  ℕ, Bool, true, false, Option, none, some, List, [], ◌∷◌, ltb, if◌then◌else◌, push, add_u128,
  sub_u128,
}
use polkafoundry.Staking.Types.{
  Bond, UnlockChunk, UnBondChunk, StakerStatus, default_status, is_active_status,
  is_onboarding_status,
}
use polkafoundry.Staking.Bonds.{release, grow_bond, shrink_bond, drop_bonds}
use polkafoundry.Staking.Search.{found, missing, binary_search}

pub record StakingCollators : Type 0 where
  pub total : ℕ
  pub active : ℕ
  pub nominations : List Bond
  pub unlocking : List UnlockChunk
  pub unbonding : List UnBondChunk
  pub status : StakerStatus
  pub claimed_rewards : List ℕ

unfoldable pub new : ℕ → ℕ → StakingCollators
new amount next_round = record {
  total = amount;
  active = 0;
  nominations = [];
  unlocking = record { value = amount; round = next_round } ∷ [];
  unbonding = [];
  status = default_status;
  claimed_rewards = [];
}

unfoldable pub is_active : StakingCollators → Bool
is_active c = is_active_status c.status

unfoldable pub active_onboard : StakingCollators → StakingCollators
active_onboard c =
    if is_onboarding_status c.status then record c { status = StakerStatus.active } else c

unfoldable pub bond_extra : ℕ → ℕ → StakingCollators → StakingCollators
bond_extra extra next_round c = record c {
  total = add_u128 c.total extra;
  unlocking = push c.unlocking (record { value = extra; round = next_round });
}

-- `Some(self.active)` or `None`
unfoldable pub bond_less : ℕ → ℕ → StakingCollators → StakingCollators × Option ℕ
bond_less less can_withdraw_round c =
    let left = sub_u128 c.active less in
    if ltb less c.active
    then (
      record c {
        active = left;
        unbonding = push c.unbonding (record { value = less; round = can_withdraw_round });
      },
      some left,
    )
    else (c, none)

-- The `filter` of `consolidate_active`: `active` grows by each chunk that is dropped.
unfoldable pub unlock : ℕ → ℕ → List UnlockChunk → ℕ × List UnlockChunk
unlock current_round active [] = (active, [])
unlock current_round active (c ∷ cs) =
    let later = ltb current_round c.round in
    let (total, kept) =
      unlock current_round (if later then active else add_u128 active c.value) cs in
    (total, if later then c ∷ kept else kept)

unfoldable pub consolidate_active : ℕ → StakingCollators → StakingCollators
consolidate_active current_round c =
    let (active, unlocking) = unlock current_round c.active c.unlocking in
    record c { active = active; unlocking = unlocking }

unfoldable pub consolidate_unbonded : ℕ → StakingCollators → StakingCollators
consolidate_unbonded current_round c =
    let (total, unbonding) = release current_round c.total c.unbonding in
    record c { total = total; unbonding = unbonding }

unfoldable pub add_nomination : Bond → StakingCollators → StakingCollators × Bool
add_nomination nomination c = elim (binary_search c.nominations nomination) [
  | found i ↦ (c, false)
  | missing i ↦ (record c { nominations = push c.nominations nomination }, true)
]

unfoldable pub nominate_extra : Bond → StakingCollators → StakingCollators × Option ℕ
nominate_extra extra c =
    let (bonds, r) = grow_bond extra c.nominations in (record c { nominations = bonds }, r)

unfoldable pub nominate_less : Bond → StakingCollators → StakingCollators × Option (Option ℕ)
nominate_less less c =
    let (bonds, r) = shrink_bond less c.nominations in (record c { nominations = bonds }, r)

unfoldable pub force_bond : StakingCollators → StakingCollators
force_bond c = record c { active = c.total; unlocking = []; status = StakerStatus.active }

unfoldable pub rm_nomination : ℕ → StakingCollators → StakingCollators × Option ℕ
rm_nomination nominator c =
    let (bonds, less) = drop_bonds nominator none c.nominations in
    elim less [ some _ ↦ (record c { nominations = bonds }, some c.active) | none ↦ (c, none) ]
