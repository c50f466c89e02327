-- ===== src/Staking/Updates/Released.antt =====
-- What an exit gives back: `execute_exit_queue` of pallets/polkafoundry-staking/src/lib.rs on one exit.
use polkafoundry.Base.{ℕ, ◌+◌, ◌≡◌, Option, none, some}
use polkafoundry.Currency.{UnreserveFrees}
use polkafoundry.Staking.Types.{Leaving}
use polkafoundry.Staking.Bonds.Chunks.{unbonded}
use polkafoundry.Staking.State.{Config, Storage}

-- What an exit holds, and what is left in the queue holds.
abbrev pub held : Leaving → ℕ
held e = e.remaining + unbonded e.unbonding

abbrev pub held_by : Option Leaving → ℕ
held_by none = 0
held_by (some e) = held e

module _ {L : Type 0} (cfg : Config L) (law : UnreserveFrees cfg.currency) (r acc : ℕ) where
  abbrev pub reserved : Storage L → ℕ
  reserved s = cfg.currency.reserved_balance acc s.balances

  abbrev pub free : Storage L → ℕ
  free s = cfg.currency.free_balance acc s.balances

  -- An amount that has come free.
  abbrev pub Freed : ℕ → Storage L → Storage L → Type 0
  Freed x s t = (reserved t + x ≡ reserved s) × (free t ≡ free s + x)
