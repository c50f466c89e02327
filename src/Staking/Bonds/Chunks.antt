-- ===== src/Staking/Bonds/Chunks.antt =====
-- What the loop that releases unbonding chunks does to their sum.
use polkafoundry.Base.{
  ℕ, ◌+◌, ◌-◌, ◌≤◌, ◌<◌, ◌≡◌, arith, List, [], ◌∷◌, u128_mod, sub_u128_exact, sum_of, ltb,
  Bool-cases, inl, inr, if◌then◌else◌,
}
use polkafoundry.Staking.Types.{UnBondChunk}
use polkafoundry.Staking.Bonds.{release}

abbrev pub unbonded : List UnBondChunk → ℕ
unbonded = sum_of (λ (c : UnBondChunk). c.value)

-- The chunks of `unbonding` whose round has come.
abbrev pub due : ℕ → List UnBondChunk → ℕ
due r [] = 0
due r (c ∷ cs) = (if ltb r c.round then 0 else c.value) + due r cs

pub release-sum :
    (r t : ℕ) (cs : List UnBondChunk)
    → unbonded cs ≤ t
    → t < u128_mod
    → ((release r t cs).0 + due r cs ≡ t) × (unbonded (release r t cs).1 + due r cs ≡ unbonded cs)
unfolding release
release-sum r t [] h k = omega arith
release-sum r t (c ∷ cs) h k = elim (Bool-cases (ltb r c.round)) [
  | inl e ↦ rw e (omega (arith, release-sum r t cs))
  | inr e ↦
      rw (e, sub_u128_exact t c.value (omega arith) k)
        (omega (arith, release-sum r (t - c.value) cs))
]
