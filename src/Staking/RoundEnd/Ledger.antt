-- ===== src/Staking/RoundEnd/Ledger.antt =====
-- What the end of a round makes of the ledger of a collator, described apart from the loops of `StakingCollators` of
-- pallets/polkafoundry-staking/src/lib.rs.
use polkafoundry.Base.{
  ℕ, ◌+◌, ◌-◌, ◌<◌, ◌≤◌, ◌≡◌, refl, ap, arith, List, [], ◌∷◌, filter, u128_mod, add_u128_exact,
  sub_u128_exact, ltb, if◌then◌else◌, Bool-cases, inl, inr,
}
use polkafoundry.Staking.Types.{StakerStatus, UnlockChunk, UnBondChunk, is_onboarding_status}
use polkafoundry.Staking.Bonds.{release}
use polkafoundry.Staking.Bonds.Chunks.{unbonded, due}
use polkafoundry.Staking.Collator.{
  StakingCollators, unlock, active_onboard, consolidate_active, consolidate_unbonded,
}
use polkafoundry.Staking.Collator.Ledger.{IsBalanced, locked}
use polkafoundry.Staking.Updates.{settled, updated}

-- The chunks of `unlocking` whose round has come, together.
abbrev pub unlocked : ℕ → List UnlockChunk → ℕ
unlocked r [] = 0
unlocked r (c ∷ cs) = (if ltb r c.round then 0 else c.value) + unlocked r cs

abbrev pub onboarded : StakerStatus → StakerStatus
onboarded StakerStatus.onboarding = StakerStatus.active
onboarded status = status

-- The ledger of a collator as round `r` begins.
abbrev pub turned_over : ℕ → StakingCollators → StakingCollators
turned_over r c = record {
  total = c.total - due r c.unbonding;
  active = c.active + unlocked r c.unlocking;
  nominations = c.nominations;
  unlocking = filter (λ (k : UnlockChunk). ltb r k.round) c.unlocking;
  unbonding = filter (λ (k : UnBondChunk). ltb r k.round) c.unbonding;
  status = onboarded c.status;
  claimed_rewards = c.claimed_rewards;
}

release-filter :
    (r t : ℕ) (cs : List UnBondChunk)
    → unbonded cs ≤ t
    → t < u128_mod
    → ((release r t cs).0 ≡ t - due r cs)
      × ((release r t cs).1 ≡ filter (λ (k : UnBondChunk). ltb r k.round) cs)
unfolding release
release-filter r t [] h k = (omega arith, refl)
release-filter r t (c ∷ cs) h k = elim (Bool-cases (ltb r c.round)) [
  | inl e ↦
      let rest = release-filter r t cs (omega arith) k in
      (ground (arith, e, rest), ground (arith, e, rest))
  | inr e ↦
      let less = sub_u128_exact t c.value (omega arith) k in
      let rest = release-filter r (t - c.value) cs (omega arith) (omega arith) in
      (rw (e, less) (ground (arith, rest)), rw (e, less) (ground (arith, rest)))
]

unlock-filter :
    (r a : ℕ) (cs : List UnlockChunk)
    → a + locked cs < u128_mod
    → ((unlock r a cs).0 ≡ a + unlocked r cs)
      × ((unlock r a cs).1 ≡ filter (λ (k : UnlockChunk). ltb r k.round) cs)
unfolding unlock
unlock-filter r a [] h = (omega arith, refl)
unlock-filter r a (c ∷ cs) h = elim (Bool-cases (ltb r c.round)) [
  | inl e ↦
      let rest = unlock-filter r a cs (omega arith) in
      (ground (arith, e, rest), ground (arith, e, rest))
  | inr e ↦
      let more = add_u128_exact a c.value (omega arith) in
      let rest = unlock-filter r (a + c.value) cs (omega arith) in
      (rw (e, more) (ground (arith, rest)), rw (e, more) (ground (arith, rest)))
]

onboarded_lem :
    (s : StakerStatus) → (if is_onboarding_status s then StakerStatus.active else s) ≡ onboarded s
onboarded_lem StakerStatus.onboarding = refl
onboarded_lem StakerStatus.validator = refl
onboarded_lem StakerStatus.nominator = refl
onboarded_lem StakerStatus.active = refl
onboarded_lem StakerStatus.idle = refl
onboarded_lem StakerStatus.leaving = refl

active_onboard_lem :
    (c : StakingCollators) → active_onboard c ≡ record c { status = onboarded c.status }
unfolding active_onboard
active_onboard_lem c = elim (Bool-cases (is_onboarding_status c.status)) [
  | inl e ↦ rw e (ap with_status (ground (arith, onboarded_lem c.status, e)))
  | inr e ↦ rw e (ap with_status (ground (arith, onboarded_lem c.status, e)))
]
  where
    with_status : StakerStatus → StakingCollators
    with_status s = record c { status = s }

-- For a collator whose books balance.
pub updated_lem : (r : ℕ) (c : StakingCollators) → IsBalanced c → updated r c ≡ turned_over r c
unfolding updated settled consolidate_active consolidate_unbonded
updated_lem r c v =
    let onboards = active_onboard_lem c in
    let unlocks = unlock-filter r c.active c.unlocking (omega (arith, v.balanced, v.bounded)) in
    let releases = release-filter r c.total c.unbonding (omega (arith, v.balanced)) v.bounded in
    rw (onboards, unlocks.0, unlocks.1, releases.0, releases.1) refl
