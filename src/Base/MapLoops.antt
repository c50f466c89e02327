-- ===== src/Base/MapLoops.antt =====
-- Maps with distinct keys, and loops that write an entry for each entry that they visit.
use Prim.Native.Nat.{ℕ}
use mathlib.Core.Path.{◌≡◌, refl}
use mathlib.Core.List.{[], ◌∷◌}
use mathlib.Core.Option
use mathlib.Core.Option.{Option, none, some}
use native.Mathlib.Omega.{arith}
use polkafoundry.Base.Maps.{Map, lookup, insert, erase, lookup-insert, lookup-erase}

module _ {ℓ} {V : Type ℓ} where
  -- No key occurs twice.
  abbrev pub IsDistinct : Map V → Type ℓ
  IsDistinct [] = Unit
  IsDistinct ((k, v) ∷ m) = (lookup k m ≡ none) × IsDistinct m

  pub insert-IsDistinct : (k : ℕ) (v : V) (m : Map V) → IsDistinct m → IsDistinct (insert k v m)
  insert-IsDistinct k v [] d = (refl, tt)
  insert-IsDistinct k v ((j, w) ∷ m) d =
      ground (arith, insert-IsDistinct k v m d.1, lookup-insert k j v m)

  pub erase-IsDistinct : (k : ℕ) (m : Map V) → IsDistinct m → IsDistinct (erase k m)
  erase-IsDistinct k [] d = tt
  erase-IsDistinct k ((j, w) ∷ m) d = ground (arith, erase-IsDistinct k m d.1, lookup-erase k j m)

  -- The map with every value changed, as `iter` with `insert` leaves it.
  abbrev pub write_each : (V → V) → Map V → Map V → Map V
  write_each f [] m = m
  write_each f ((k, v) ∷ es) m = write_each f es (insert k (f v) m)

  -- What one key reads after such a loop.
  abbrev pub over : (V → V) → Option V → Option V → Option V
  over f none old = old
  over f (some v) old = some (f v)

  pub lookup-write_each :
      (f : V → V) (es m : Map V) (k : ℕ)
      → IsDistinct es
      → lookup k (write_each f es m) ≡ over f (lookup k es) (lookup k m)
  lookup-write_each f [] m k d = refl
  lookup-write_each f ((j, v) ∷ es) m k d =
      ground (arith, lookup-write_each f es (insert j (f v) m) k d.1, lookup-insert j k (f v) m)

  -- A loop over all entries of a map changes every value once.
  pub lookup-write_each_self :
      (f : V → V) (m : Map V) (k : ℕ)
      → IsDistinct m
      → lookup k (write_each f m m) ≡ Option.map f (lookup k m)
  lookup-write_each_self f m k d = ground (arith, lookup-write_each f m m k d)
