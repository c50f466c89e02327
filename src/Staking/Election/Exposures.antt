-- ===== src/Staking/Election/Exposures.antt =====
-- `collect_exposures` of pallets/polkafoundry-staking/src/lib.rs: the own stake of a validator and
-- the stakes of the others.
use mathlib.Core.List.{append_assoc, append-nil}
use polkafoundry.Base.{
  ◌++◌, refl, sym, ℕ, ◌+◌, ◌≤◌, ◌<◌, ◌≡◌, arith, List, [], ◌∷◌, sum_of, sum_of-append, u128_mod,
  saturating_add_u128, ◌==◌, if◌then◌else◌,
}
use polkafoundry.Staking.Types.{Exposure, IndividualExposure}
use polkafoundry.Staking.State.{Config}
use polkafoundry.Staking.Election.{Support, expose_voter, expose}

saturating_add_exact : (a b : ℕ) → a + b < u128_mod → saturating_add_u128 a b ≡ a + b
unfolding saturating_add_u128
saturating_add_exact a b h = omega arith

abbrev pub backing : List IndividualExposure → ℕ
backing = sum_of (λ (e : IndividualExposure). e.value)

abbrev pub nothing : Exposure
nothing = record { total = 0; own = 0; others = [] }

module _ {L : Type 0} (cfg : Config L) (issuance who : ℕ) where
  -- The stake that the voters other than the validator have, and that the validator has itself.
  abbrev pub stakes_of_others : Support → ℕ
  stakes_of_others [] = 0
  stakes_of_others ((v, w) ∷ vs) =
      (if v == who then 0 else cfg.to_currency w issuance) + stakes_of_others vs

  abbrev pub own_stake : Support → ℕ
  own_stake [] = 0
  own_stake ((v, w) ∷ vs) = (if v == who then cfg.to_currency w issuance else 0) + own_stake vs

  -- The voters other than the validator, each with its stake, in their order.
  abbrev pub other_voters : Support → List IndividualExposure
  other_voters [] = []
  other_voters ((v, w) ∷ vs) =
      let rest = other_voters vs in
      if v == who then rest else record { who = v; value = cfg.to_currency w issuance } ∷ rest

  expose-others :
      (vs : Support) (e : Exposure)
      → (expose cfg issuance who vs e).others ≡ e.others ++ other_voters vs
  unfolding expose expose_voter
  expose-others [] e = sym (append-nil e.others)
  expose-others ((v, w) ∷ vs) e =
      let one : IndividualExposure = record { who = v; value = cfg.to_currency w issuance } in
      ground (
        arith,
        expose-others vs (expose_voter cfg issuance who (v, w) e),
        append_assoc e.others (one ∷ []) (other_voters vs),
      )

  expose_voter_lem :
      (v w : ℕ) (e : Exposure)
      → e.own ≤ e.total
      → e.total + cfg.to_currency w issuance < u128_mod
      → let r = expose_voter cfg issuance who (v, w) e in
        (r.own ≡ e.own + (if v == who then cfg.to_currency w issuance else 0))
        × (backing r.others
            ≡ backing e.others + (if v == who then 0 else cfg.to_currency w issuance))
        × (r.total ≡ e.total + cfg.to_currency w issuance)
  unfolding expose_voter
  expose_voter_lem v w e h k =
      let stake = cfg.to_currency w issuance in
      ground (
        arith,
        saturating_add_exact e.total stake,
        saturating_add_exact e.own stake,
        sum_of-append (λ (x : IndividualExposure). x.value) e.others
            (record { who = v; value = stake } ∷ []),
      )

  expose_from :
      (vs : Support) (e : Exposure)
      → e.total ≡ e.own + backing e.others
      → e.total + own_stake vs + stakes_of_others vs < u128_mod
      → let r = expose cfg issuance who vs e in
        (r.own ≡ e.own + own_stake vs)
        × (backing r.others ≡ backing e.others + stakes_of_others vs)
        × (r.total ≡ r.own + backing r.others)
  unfolding expose
  expose_from [] e h k = omega arith
  expose_from ((v, w) ∷ vs) e h k =
      ground
        (arith, expose_voter_lem v w e, expose_from vs (expose_voter cfg issuance who (v, w) e))

  -- If the stakes of a validator's voters fit 128 bits together, its exposure splits them: the validator's
  -- own votes are `own`, `others` lists every other voter with its stake, in the order of the support, and
  -- `total` is both together.
  pub expose_lem :
      (vs : Support)
      → own_stake vs + stakes_of_others vs < u128_mod
      → let r = expose cfg issuance who vs nothing in
        (r.own ≡ own_stake vs)
        × (backing r.others ≡ stakes_of_others vs)
        × (r.others ≡ other_voters vs)
        × (r.total ≡ own_stake vs + stakes_of_others vs)
  expose_lem vs h =
      let split = expose_from vs nothing refl (omega arith) in
      (omega (arith, split), omega (arith, split), expose-others vs nothing, omega (arith, split))
