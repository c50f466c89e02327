-- ===== src/Currency.antt =====
-- The balances pallet as the pallets here see it: the traits `Currency` and `ReservableCurrency` of
-- frame_support, which are not part of this repository. A value of `Currency L` gives their functions
-- over balances of type `L`; it is a parameter of every model that calls them.
use polkafoundry.Base.{ℕ, ◌+◌, ◌-◌, ◌≤◌, ◌<◌, ◌≡◌, ◌⊎◌, Option, some}

pub record Currency (L : Type 0) : Type 0 where
  pub free_balance : ℕ → L → ℕ
  pub reserved_balance : ℕ → L → ℕ
  pub total_issuance : L → ℕ
  pub minimum_balance : ℕ
  -- `Err` (here `none`) moves no funds.
  pub reserve : ℕ → ℕ → L → Option L
  -- The amount that could not be unreserved, and the new balances.
  pub unreserve : ℕ → ℕ → L → ℕ × L
  -- The imbalance that was created, and the new balances.
  pub deposit_into_existing : ℕ → ℕ → L → Option (ℕ × L)
  -- A transfer with `AllowDeath`; `Err` moves no funds.
  pub transfer : ℕ → ℕ → ℕ → L → Option L

-- What a payment with `AllowDeath` leaves of a free balance: the rest, or nothing if the rest is below the
-- minimum balance, in which case the account is reaped and the rest is burnt as dust.
abbrev pub LeftOver : ℕ → ℕ → ℕ → Type 0
LeftOver minimum rest now = (now ≡ rest) ⊎ ((now ≡ 0) × (rest < minimum))

-- What the documentation of `Currency::transfer`, of `ExistenceRequirement::AllowDeath` and of the existential
-- deposit promises between two different accounts.
pub record TransferMoves {L : Type 0} (c : Currency L) : Type 0 where
  pub moves :
      (a b x : ℕ) (l l' : L)
      → c.transfer a b x l ≡ some l'
      → (a ≡ b → ⊥)
      → (x ≤ c.free_balance a l)
        × LeftOver c.minimum_balance (c.free_balance a l - x) (c.free_balance a l')
        × (c.free_balance b l' ≡ c.free_balance b l + x)

-- What the documentation of the traits says of the total issuance: reserving and unreserving keep it, and a
-- deposit raises it by the imbalance that it reports.
pub record IssuanceCounts {L : Type 0} (c : Currency L) : Type 0 where
  pub reserve_keeps :
      (a x : ℕ) (l l' : L) → c.reserve a x l ≡ some l' → c.total_issuance l' ≡ c.total_issuance l
  pub unreserve_keeps :
      (a x : ℕ) (l : L) → c.total_issuance (c.unreserve a x l).1 ≡ c.total_issuance l
  pub deposit_adds :
      (a x y : ℕ) (l l' : L)
      → c.deposit_into_existing a x l ≡ some (y, l')
      → c.total_issuance l' ≡ c.total_issuance l + y

-- What the documentation of `ReservableCurrency::unreserve` says: as much as is reserved comes free.
pub record UnreserveFrees {L : Type 0} (c : Currency L) : Type 0 where
  pub frees :
      (a x : ℕ) (l : L)
      → x ≤ c.reserved_balance a l
      → let l' = (c.unreserve a x l).1 in
        (c.reserved_balance a l' + x ≡ c.reserved_balance a l)
        × (c.free_balance a l' ≡ c.free_balance a l + x)
