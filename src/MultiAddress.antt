-- ===== src/MultiAddress.antt =====
-- `MultiAddress` and `AccountIdLookup` of runtime/halongbay/src/multiaddress.rs (and the same text in the
-- other two runtimes). Bytes are numbers.
pub mod Printed
use polkafoundry.Base.{ℕ, ◌≡◌, ◌↔◌, arith, List, ◌++◌, Result, ok, err, codes}

pub data MultiAddress (AccountId AccountIndex : Type 0) : Type 0 where
  id : AccountId → MultiAddress AccountId AccountIndex
  index : AccountIndex → MultiAddress AccountId AccountIndex
  raw : List ℕ → MultiAddress AccountId AccountIndex
  address32 : List ℕ → MultiAddress AccountId AccountIndex
  address20 : List ℕ → MultiAddress AccountId AccountIndex

pub data LookupError : Type 0 where
  lookup_error : LookupError

module _ {AccountId AccountIndex : Type 0} where
  -- `Display`; `hex` is `HexDisplay` and `debug` the derived printer.
  unfoldable pub display :
      (List ℕ → List ℕ)
      → (MultiAddress AccountId AccountIndex → List ℕ)
      → MultiAddress AccountId AccountIndex
      → List ℕ
  display hex debug (raw inner) = codes "MultiAddress::Raw(" ++ (hex inner ++ codes ")")
  display hex debug (address32 inner) = codes "MultiAddress::Address32(" ++ (hex inner ++ codes ")")
  display hex debug (address20 inner) = codes "MultiAddress::Address20(" ++ (hex inner ++ codes ")")
  display hex debug x = debug x

  unfoldable pub from : AccountId → MultiAddress AccountId AccountIndex
  from a = id a

  -- `Default`, with that of the accounts.
  unfoldable pub default_address : AccountId → MultiAddress AccountId AccountIndex
  default_address account = id account

  unfoldable pub lookup : MultiAddress AccountId AccountIndex → Result LookupError AccountId
  lookup (id i) = ok i
  lookup _ = err lookup_error

  unfoldable pub unlookup : AccountId → MultiAddress AccountId AccountIndex
  unlookup x = id x

  -- `lookup` and `unlookup` are inverse where `lookup` succeeds: an address is looked up to an account
  -- exactly if it is the address of that account.
  pub lookup-unlookup :
      (x : MultiAddress AccountId AccountIndex) (a : AccountId)
      → (lookup x ≡ ok a) ↔ (x ≡ unlookup a)
  unfolding lookup unlookup
  lookup-unlookup x a = (λ e. ground arith, λ e. ground arith)
