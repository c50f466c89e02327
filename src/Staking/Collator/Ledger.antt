-- ===== src/Staking/Collator/Ledger.antt =====
-- The books of a collator (`StakingCollators` of pallets/polkafoundry-staking/src/lib.rs): its total
-- against what is active, what is still locked and what is unbonding.
use polkafoundry.Base.{
  ℕ, ◌+◌, ◌<◌, ◌≡◌, refl, arith, List, [], ◌∷◌, u128_mod, add_u128_exact, sub_u128_exact, sum_of,
  sum_of-append, ltb, Bool-cases, inl, inr, ltb→lt,
}
use polkafoundry.Staking.Types.{UnlockChunk, UnBondChunk}
use polkafoundry.Staking.Bonds.Chunks.{unbonded, due, release-sum}
use polkafoundry.Staking.Collator.{
  StakingCollators, new, bond_extra, bond_less, unlock, consolidate_active, consolidate_unbonded,
  force_bond,
}

abbrev pub locked : List UnlockChunk → ℕ
locked = sum_of (λ (c : UnlockChunk). c.value)

pub record IsBalanced (c : StakingCollators) : Type 0 where
  pub balanced : c.total ≡ c.active + locked c.unlocking + unbonded c.unbonding
  pub bounded : c.total < u128_mod

-- A new collator's books balance: the whole bond is locked until the next round.
pub new-IsBalanced : (amount next : ℕ) → amount < u128_mod → IsBalanced (new amount next)
unfolding new
new-IsBalanced amount next h = ground arith

-- Bonding more keeps the books balanced, as long as the total fits its 128 bits.
pub bond_extra-IsBalanced :
    (extra next : ℕ) (c : StakingCollators)
    → IsBalanced c
    → c.total + extra < u128_mod
    → IsBalanced (bond_extra extra next c)
unfolding bond_extra
bond_extra-IsBalanced extra next c v h = omega (
  arith,
  add_u128_exact c.total extra h,
  sum_of-append (λ (k : UnlockChunk). k.value) c.unlocking
      (record { value = extra; round = next } ∷ []),
)

-- Bonding less moves the amount from the active part to the unbonding part, and keeps the books
-- balanced whether it succeeds or is refused.
pub bond_less-IsBalanced :
    (less when : ℕ) (c : StakingCollators) → IsBalanced c → IsBalanced (bond_less less when c).0
unfolding bond_less
bond_less-IsBalanced less when c v = elim (Bool-cases (ltb less c.active)) [
  | inr t ↦ rw t v
  | inl t ↦ rw t (
      omega (
        arith,
        ltb→lt less c.active t,
        v.balanced,
        v.bounded,
        sub_u128_exact c.active less,
        sum_of-append (λ (k : UnBondChunk). k.value) c.unbonding
            (record { value = less; round = when } ∷ []),
      ))
]

unlock-sum :
    (r a : ℕ) (cs : List UnlockChunk)
    → a + locked cs < u128_mod
    → (unlock r a cs).0 + locked (unlock r a cs).1 ≡ a + locked cs
unfolding unlock
unlock-sum r a [] h = refl
unlock-sum r a (c ∷ cs) h = elim (Bool-cases (ltb r c.round)) [
  | inl t ↦ rw t (omega (arith, unlock-sum r a cs))
  | inr t ↦
      rw (t, add_u128_exact a c.value (omega arith)) (omega (arith, unlock-sum r (a + c.value) cs))
]

-- Unlocking at a round keeps the books balanced and the total as it is.
pub consolidate_active-IsBalanced :
    (r : ℕ) (c : StakingCollators) → IsBalanced c → IsBalanced (consolidate_active r c)
unfolding consolidate_active
consolidate_active-IsBalanced r c v =
    omega (arith, v.balanced, v.bounded, unlock-sum r c.active c.unlocking)

-- Releasing what has come due keeps the books balanced, and the total falls by exactly that amount.
pub consolidate_unbonded-IsBalanced :
    (r : ℕ) (c : StakingCollators)
    → IsBalanced c
    → IsBalanced (consolidate_unbonded r c)
      × ((consolidate_unbonded r c).total + due r c.unbonding ≡ c.total)
unfolding consolidate_unbonded
consolidate_unbonded-IsBalanced r c v =
    omega (arith, v.balanced, v.bounded, release-sum r c.total c.unbonding)

-- Forcing a bond active keeps the books balanced exactly if nothing is unbonding.
pub force_bond-IsBalanced :
    (c : StakingCollators) → IsBalanced c → unbonded c.unbonding ≡ 0 → IsBalanced (force_bond c)
unfolding force_bond
force_bond-IsBalanced c v h = omega (arith, v.bounded)
