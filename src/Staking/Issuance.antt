-- ===== src/Staking/Issuance.antt =====
-- What the staking pallet does to the total issuance: only the rewards of a round raise it, and their events
-- report by how much.
pub mod Calls
pub mod Rewards
pub mod Updates
pub mod Rounds
use polkafoundry.Base.{ℕ, ◌+◌, ◌≡◌, arith, sum_of, Option-cases, inl, inr}
use polkafoundry.Currency.{Currency, IssuanceCounts}
use polkafoundry.Staking.Types.{Event}
use polkafoundry.Staking.State.{Config, Storage, reserve_balance}

-- What one event says was minted.
abbrev pub rewarded : Event → ℕ
rewarded (Event.rewarded to amount) = amount
rewarded _ = 0

abbrev pub minted : {L : Type 0} → Storage L → ℕ
minted s = sum_of rewarded s.events

module _ {L : Type 0} (cfg : Config L) where
  abbrev pub issuance : Storage L → ℕ
  issuance s = cfg.currency.total_issuance s.balances

  -- From one storage to the next the issuance rises by what the events report.
  abbrev pub Accounted : Storage L → Storage L → Type 0
  Accounted s t = issuance t + minted s ≡ issuance s + minted t

  -- Neither changes.
  abbrev pub Quiet : Storage L → Storage L → Type 0
  Quiet s t = (issuance t ≡ issuance s) × (minted t ≡ minted s)

  pub Accounted-of_Quiet : (s t : Storage L) → Quiet s t → Accounted s t
  Accounted-of_Quiet s t q = omega (arith, q.0, q.1)

  pub Accounted-trans : (s t v : Storage L) → Accounted s t → Accounted t v → Accounted s v
  Accounted-trans s t v h k = omega (arith, h, k)

module _ {L : Type 0} (c : Currency L) (law : IssuanceCounts c) where
  pub reserve_balance-total_issuance :
      (who amount : ℕ) (l : L)
      → c.total_issuance (reserve_balance c who amount l) ≡ c.total_issuance l
  reserve_balance-total_issuance who amount l = elim (Option-cases (c.reserve who amount l)) [
    | inl e ↦ ground arith
    | inr (l', e) ↦ ground (arith, law.reserve_keeps who amount l l' e)
  ]
