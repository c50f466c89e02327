-- ===== src/Staking/RoundEnd/Kept.antt =====
-- What the steps of `on_finalize` leave alone.
use polkafoundry.Base.{
  ℕ, ◌≡◌, refl, arith, Option, List, [], ◌∷◌, Map, ltb, lookup_or, erase, sub_u32, if◌then◌else◌,
  Option-cases, inl, inr, ◌∙◌, ap,
}
use polkafoundry.PerThing.{PerThing}
use polkafoundry.BigUint.{BigUint}
use polkafoundry.Staking.Types.{SettingStruct, Exposure, IndividualExposure, UnBondChunk, Leaving}
use polkafoundry.Staking.Round.{RoundInfo}
use polkafoundry.Staking.Collator.{StakingCollators}
use polkafoundry.Staking.Nominator.{StakingNominators}
use polkafoundry.Staking.State.{Config, Storage}
use polkafoundry.Staking.Payout.{
  deposit, mint, pay_nominators, pay_collators, round_payout, pay_round, payout_stakers,
}
use polkafoundry.Staking.Updates.{
  update_each_nominator, pay_out, pay_due, pay_all, execute_exit, execute_each_exit,
}
use polkafoundry.Staking.Election.{
  Supports, record_exposures, collect_exposures, process_election, enact_election,
}

-- What all of the steps leave alone, and what all but `execute_exit_queue` do.
abbrev pub main_part : {L : Type 0} → Storage L → Map StakingCollators × RoundInfo × SettingStruct
main_part s = (s.collators, s.current_round, s.settings)

abbrev pub SameMain : {L : Type 0} → Storage L → Storage L → Type 0
SameMain s t = main_part t ≡ main_part s

abbrev pub kept_part :
    {L : Type 0} → Storage L → Map StakingCollators × RoundInfo × SettingStruct × Map Leaving
kept_part s = (s.collators, s.current_round, s.settings, s.exit_queue)

abbrev pub Kept : {L : Type 0} → Storage L → Storage L → Type 0
Kept s t = kept_part t ≡ kept_part s

-- The parts that are the same.
module _ {A B C : Type 0} {p q : A × B × C} where
  pub same_first : p ≡ q → p.0 ≡ q.0
  same_first h = ap (λ p. p.0) h

  pub same_second : p ≡ q → p.1 ≡ q.1
  same_second h = ap (λ p. p.1) h

  pub same_third : p ≡ q → p.2 ≡ q.2
  same_third h = ap (λ p. p.2) h

module _ {A B C D : Type 0} {p q : A × B × C × D} where
  pub same_main : p ≡ q → Path (A × B × C) (p.0, p.1, p.2) (q.0, q.1, q.2)
  same_main h = ap (λ p. (p.0, p.1, p.2)) h

  pub same_last : p ≡ q → p.3 ≡ q.3
  same_last h = ap (λ p. p.3) h

-- Equations that follow one another, the first one first.
pub then_same {ℓ} : {A : Type ℓ} {a b c : A} → b ≡ a → c ≡ b → c ≡ a
then_same h k = k ∙ h

module _ {L : Type 0} (cfg : Config L) where
  mint-Kept : (amount to : ℕ) (s : Storage L) → Kept s (mint cfg amount to s)
  unfolding mint deposit
  mint-Kept amount to s = ground arith

  pay_nominators-Kept :
      (per : PerThing) (t p : ℕ) (es : List IndividualExposure) (s : Storage L)
      → Kept s (pay_nominators cfg per t p es s)
  unfolding pay_nominators
  pay_nominators-Kept per t p [] s = refl
  pay_nominators-Kept per t p (e ∷ es) s =
      then_same (mint-Kept _ e.who s) (pay_nominators-Kept per t p es _)

  pay_collators-Kept :
      (per : PerThing) (t p tp : ℕ) (points : Map ℕ) (es : Map Exposure) (s : Storage L)
      → Kept s (pay_collators cfg per t p tp points es s)
  unfolding pay_collators
  pay_collators-Kept per t p tp points [] s = refl
  pay_collators-Kept per t p tp points ((a, e) ∷ es) s = then_same (mint-Kept _ a s) (
      then_same (pay_nominators-Kept per t p e.others _)
        (pay_collators-Kept per t p tp points es _))

  pay_round-Kept :
      {B : Type 0} (per : PerThing) (u : BigUint B) (r : ℕ) (s : Storage L)
      → Kept s (pay_round cfg per u r s)
  unfolding pay_round
  pay_round-Kept per u r s =
      let total_stake = lookup_or 0 r s.total_staked_at in
      pay_collators-Kept per total_stake
        (round_payout cfg per u total_stake (lookup_or 0 r s.total_issuance_at))
        (lookup_or 0 r s.total_points) (lookup_or [] r s.collator_points)
        (lookup_or [] r s.round_staker_clipped)
        (record s { round_staker_clipped = erase r s.round_staker_clipped })

  pub payout_stakers-Kept :
      {B : Type 0} (per : PerThing) (u : BigUint B) (r : ℕ) (s : Storage L)
      → Kept s (payout_stakers cfg per u r s)
  unfolding payout_stakers
  payout_stakers-Kept per u r s =
      ground (arith, pay_round-Kept per u (sub_u32 r cfg.payout_duration) s)

  pub update_nominators-Kept :
      (r : ℕ) (es : Map StakingNominators) (s : Storage L)
      → Kept s (update_each_nominator cfg r es s)
  unfolding update_each_nominator
  update_nominators-Kept r [] s = refl
  update_nominators-Kept r ((a, n) ∷ es) s = update_nominators-Kept r es _

  pay_due-SameMain :
      (r acc staked : ℕ) (cs : List UnBondChunk) (s : Storage L)
      → SameMain s (pay_due cfg r acc staked cs s)
  unfolding pay_due pay_out
  pay_due-SameMain r acc staked [] s = refl
  pay_due-SameMain r acc staked (c ∷ cs) s = ground (
    arith,
    pay_due-SameMain r acc staked cs
        (if ltb r c.round then s else pay_out cfg r acc staked c.value s),
  )

  pay_all-SameMain :
      (r acc staked : ℕ) (cs : List UnBondChunk) (s : Storage L)
      → SameMain s (pay_all cfg r acc staked cs s)
  unfolding pay_all pay_out
  pay_all-SameMain r acc staked [] s = refl
  pay_all-SameMain r acc staked (c ∷ cs) s = pay_all-SameMain r acc staked cs _

  execute_exit-SameMain :
      (r acc : ℕ) (e : Leaving) (s : Storage L) → SameMain s (execute_exit cfg r acc e s)
  unfolding execute_exit pay_out
  execute_exit-SameMain r acc e s = ground (
    arith,
    pay_due-SameMain r acc s.total_staked e.unbonding s,
    pay_all-SameMain r acc s.total_staked e.unbonding
        (pay_out cfg r acc s.total_staked e.remaining s),
  )

  pub execute_exits-SameMain :
      (r : ℕ) (es : Map Leaving) (s : Storage L) → SameMain s (execute_each_exit cfg r es s)
  unfolding execute_each_exit
  execute_exits-SameMain r [] s = refl
  execute_exits-SameMain r ((a, e) ∷ es) s =
      then_same (execute_exit-SameMain r a e s) (execute_exits-SameMain r es _)

  record_exposures-Kept :
      (r : ℕ) (es : Map Exposure) (s : Storage L) → Kept s (record_exposures cfg r es s)
  unfolding record_exposures
  record_exposures-Kept r [] s = refl
  record_exposures-Kept r ((a, e) ∷ es) s = record_exposures-Kept r es _

  process_election-Kept :
      (supports : Supports) (r : ℕ) (s : Storage L) → Kept s (process_election cfg supports r s).1
  unfolding process_election
  process_election-Kept supports r s = record_exposures-Kept r (collect_exposures cfg supports s) s

  pub enact_election-Kept :
      (elect : Storage L → Option Supports) (r : ℕ) (s : Storage L)
      → Kept s (enact_election cfg elect r s).1
  unfolding enact_election
  enact_election-Kept elect r s = elim (Option-cases (elect s)) [
    | inl e ↦ ground arith
    | inr (supports, e) ↦ ground (arith, process_election-Kept supports r s)
  ]
