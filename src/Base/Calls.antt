-- ===== src/Base/Calls.antt =====
-- A dispatchable call: it reads and writes the storage and ends in `Ok` or in an error. The storage
-- comes back after an error too, since a call that is not marked `#[transactional]` keeps the writes
-- that it made before it failed.
use mathlib.Core.Path.{◌≡◌}
use native.Mathlib.Omega.{arith}
use mathlib.Core.Bool.{Bool}
use mathlib.Core.Option.{Option, none, some}
use Prim.Native.Nat.{ℕ}
use polkafoundry.Base.Tests.{if◌then◌else◌}

pub data Result (E : Type 0) (A : Type 0) : Type 0 where
  ok : A → Result E A
  err : E → Result E A

abbrev pub Call : Type 0 → Type 0 → Type 0 → Type 0
Call S E A = S → Result E A × S

-- The caller of a dispatchable.
pub data Origin : Type 0 where
  root : Origin
  signed : ℕ → Origin
  unsigned : Origin

-- An error of the pallet, the `BadOrigin` of `frame_system`, or a panic of the runtime.
pub data Failure (E : Type 0) : Type 0 where
  bad_origin panicked : Failure E
  error : E → Failure E

module _ {S E : Type 0} where
  infixl 5 ◌>>=◌ ◌>>◌
  abbrev pub ◌>>=◌ : {A B : Type 0} → Call S E A → (A → Call S E B) → Call S E B
  ◌>>=◌ m f s = let (r, t) = m s in elim r [ ok a ↦ f a t | err e ↦ (err e, t) ]

  abbrev pub ◌>>◌ : {B : Type 0} → Call S E (Unit {0}) → Call S E B → Call S E B
  m >> k = m >>= λ _. k

  abbrev pub pure : {A : Type 0} → A → Call S E A
  pure a s = (ok a, s)

  abbrev pub gets : {A : Type 0} → (S → A) → Call S E A
  gets f s = (ok (f s), s)

  abbrev pub modify : (S → S) → Call S E (Unit {0})
  modify f s = (ok tt, f s)

  -- A call that follows one which ends in `Ok`.
  pub bind_ok :
      {A B : Type 0} (m : Call S E A) (k : A → Call S E B) (s t : S) (a : A)
      → m s ≡ (ok a, t)
      → (m >>= k) s ≡ k a t
  bind_ok m k s t a h = ground arith

  -- A call that follows one which fails.
  pub bind_err :
      {A B : Type 0} (m : Call S E A) (k : A → Call S E B) (s t : S) (e : E)
      → m s ≡ (err e, t)
      → (m >>= k) s ≡ (err e, t)
  bind_err m k s t e h = ground arith

  -- A pure step before the rest of a call.
  pub bind_pure :
      {A B C : Type 0} (m : Call S E A) (g : A → B) (k : B → Call S E C) (s : S)
      → ((m >>= λ a. pure (g a)) >>= k) s ≡ (m >>= λ a. k (g a)) s
  bind_pure m g k s = ground arith

module _ {S E : Type 0} where
  -- `ensure!(test, Error::e)`
  abbrev pub ensure : Bool → E → Call S (Failure E) (Unit {0})
  ensure c e s = (if c then ok tt else err (error e), s)

  -- A fault of the machine, such as a division by zero.
  abbrev pub panic_if : Bool → Call S (Failure E) (Unit {0})
  panic_if c s = (if c then err panicked else ok tt, s)

  -- `o.ok_or(Error::e)?`
  abbrev pub ok_or : {A : Type 0} → Option A → E → Call S (Failure E) A
  ok_or none e s = (err (error e), s)
  ok_or (some a) e s = (ok a, s)

  abbrev pub ensure_root : Origin → Call S (Failure E) (Unit {0})
  ensure_root root s = (ok tt, s)
  ensure_root _ s = (err bad_origin, s)

  abbrev pub ensure_signed : Origin → Call S (Failure E) ℕ
  ensure_signed (signed who) s = (ok who, s)
  ensure_signed _ s = (err bad_origin, s)

  abbrev pub ensure_none : Origin → Call S (Failure E) (Unit {0})
  ensure_none unsigned s = (ok tt, s)
  ensure_none _ s = (err bad_origin, s)
