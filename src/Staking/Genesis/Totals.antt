-- ===== src/Staking/Genesis/Totals.antt =====
-- What the genesis of pallets/polkafoundry-staking/src/lib.rs records as the total stake.
use polkafoundry.Base.{
  ℕ, ◌+◌, ◌<◌, ◌≡◌, arith, some, List, [], ◌∷◌, sum_of, lookup_or, lookup-insert, u128_mod,
  add_u128, add_u128_exact, signed, Option-cases, inl, inr,
}
use polkafoundry.Staking.Round.{new_round}
use polkafoundry.Staking.State.{Config, Storage}
use polkafoundry.Staking.Calls.{bond}
use polkafoundry.Staking.Genesis.{bond_stakers, first_round, build}

abbrev pub bonds_sum : List (ℕ × ℕ) → ℕ
bonds_sum = sum_of (λ (b : ℕ × ℕ). b.1)

module _ {L : Type 0} (cfg : Config L) where
  bond_stakers-sum :
      (bs : List (ℕ × ℕ)) (total : ℕ) (s t : Storage L) (r : ℕ)
      → total + bonds_sum bs < u128_mod
      → bond_stakers cfg bs total s ≡ some (r, t)
      → r ≡ total + bonds_sum bs
  unfolding bond_stakers
  bond_stakers-sum [] total s t r h e = ground arith
  bond_stakers-sum ((k, x) ∷ bs) total s t r h e = ground (
    arith,
    add_u128_exact total x,
    bond_stakers-sum bs (add_u128 total x) (bond cfg (signed k) x s).1 t r,
  )

  -- A genesis that does not panic records as the total stake, of the storage and of round 1, the sum
  -- of all listed bonds, whether `bond` accepted them or not; and round 1 is the current round. (The
  -- sum fits 128 bits.)
  pub build-total_staked :
      (bs : List (ℕ × ℕ)) (s t : Storage L)
      → bonds_sum bs < u128_mod
      → build cfg bs s ≡ some t
      → (t.total_staked ≡ bonds_sum bs)
        × (lookup_or 0 1 t.total_staked_at ≡ bonds_sum bs)
        × (t.current_round.index ≡ 1)
  unfolding build first_round new_round
  build-total_staked bs s t h e = elim (Option-cases (bond_stakers cfg bs 0 s)) [
    | inl none_built ↦ ground arith
    | inr ((r, b), built) ↦
        ground (arith, bond_stakers-sum bs 0 s b r, lookup-insert 1 1 r b.total_staked_at)
  ]
