-- ===== src/Node/Launch/Emits.antt =====
-- Which events a part of a node's start in node/src/service.rs adds, and how parts compose.
use mathlib.Core.List.{append_assoc, append-nil}
use mathlib.Core.Path.{subst}
use polkafoundry.Base.{
  ℕ, ◌≡◌, ◌≢◌, ◌∙◌, refl, sym, ap, arith, Bool, true, false, Option, none, some, List, [], ◌∷◌,
  ◌++◌, push, Result, ok, err, Call, ◌>>=◌, ◌>>◌, bind_ok, bind_err, pure, modify,
}
use polkafoundry.Node.Partial.{CliError}
use polkafoundry.Node.Launch.{
  Event, Launched, LaunchError, failing, library_call, start, starts, starts_if, ensure_full,
  expect, panicked, is_some,
}

abbrev pub optional : Bool → Event → List Event
optional true e = e ∷ []
optional false e = []

-- A part of the events has been started, and the rest is missing.
pub record Stopped (whole old now : List Event) : Type 0 where
  pub done : List Event
  pub missing : List Event
  pub parts : whole ≡ done ++ missing
  pub added : now ≡ old ++ done

-- After `Ok` all events of one list have been started, in its order; after an error, which is no panic, the
-- first of another.
abbrev pub Done :
    {W A : Type 0}
    → List Event
    → List Event
    → List Event
    → Result LaunchError A × Launched W
    → Type 0
Done whole front old (ok a, s) = s.events ≡ old ++ whole
Done whole front old (err e, s) = (e ≢ panicked) × Stopped front old s.events

abbrev pub Ends :
    {W A : Type 0} → List Event → List Event → Call (Launched W) LaunchError A → Type 0
Ends whole front m = (s : Launched _) → Done whole front s.events (m s)

abbrev pub Emits : {W A : Type 0} → List Event → Call (Launched W) LaunchError A → Type 0
Emits whole m = Ends whole whole m

nothing : {now : List Event} → Stopped [] now now
nothing {now} = record { done = []; missing = []; parts = refl; added = sym (append-nil now) }

module _ {W A : Type 0} where
  -- What is started after `es`.
  later :
      (es fs gs old : List Event) (p : Result LaunchError A × Launched W)
      → Done fs gs (old ++ es) p
      → Done (es ++ fs) (es ++ gs) old p
  later es fs gs old (ok a, s) d = d ∙ append_assoc old es fs
  later es fs gs old (err e, s) (ne, d) = (
    ne,
    record {
      done = es ++ d.done;
      missing = d.missing;
      parts = ap (λ r. es ++ r) d.parts ∙ sym (append_assoc es d.done d.missing);
      added = d.added ∙ append_assoc old es d.done;
    },
  )

module _ {W A B : Type 0} where
  -- One part after another, of which the second may rely on what the first one gives.
  pub bind-Emits :
      (P : A → Type 0) (m : Call (Launched W) LaunchError A)
      (k : A → Call (Launched W) LaunchError B) (es fs gs : List Event)
      → Emits es m
      → ((s t : Launched W) (a : A) → m s ≡ (ok a, t) → P a)
      → ((a : A) → P a → Ends fs gs (k a))
      → Ends (es ++ fs) (es ++ gs) (m >>= k)
  bind-Emits P m k es fs gs first gives second s = go (m s) refl (first s)
    where
      go :
          (p : Result LaunchError A × Launched W)
          → m s ≡ p
          → Done es es s.events p
          → Done (es ++ fs) (es ++ gs) s.events ((m >>= k) s)
      go (ok a, t) h d = subst (Done (es ++ fs) (es ++ gs) s.events) (sym (bind_ok m k s t a h)) (
          later es fs gs s.events (k a t)
            (subst (λ old. Done fs gs old (k a t)) d (second a (gives s t a h) t)))
      go (err e, t) h (ne, d) =
          subst (Done (es ++ fs) (es ++ gs) s.events) (sym (bind_err m k s t e h)) (
            ne,
            record {
              done = d.done;
              missing = d.missing ++ gs;
              parts = ap (λ r. r ++ gs) d.parts ∙ append_assoc d.done d.missing gs;
              added = d.added;
            },
          )

  pub then-Emits :
      (m : Call (Launched W) LaunchError A) (k : A → Call (Launched W) LaunchError B)
      (es fs gs : List Event)
      → Emits es m
      → ((a : A) → Ends fs gs (k a))
      → Ends (es ++ fs) (es ++ gs) (m >>= k)
  then-Emits m k es fs gs first second =
      bind-Emits (λ a. Unit) m k es fs gs first (λ s t a h. tt) (λ a u. second a)

module _ {W A : Type 0} where
  pub library_call-Emits : (m : Call W CliError A) → Emits [] (library_call m)
  library_call-Emits m s = go (m s.libs)
    where
      go : (p : Result CliError A × W) → Done [] [] s.events (failing p.0, record s { libs = p.1 })
      go (ok a, v) = sym (append-nil s.events)
      go (err e, v) = (λ h. ground arith, nothing)

  pub start-Emits : (e : Event) (m : Call W CliError A) → Emits (e ∷ []) (start e m)
  start-Emits e m =
      then-Emits (library_call m) started [] (e ∷ []) (e ∷ []) (library_call-Emits m) (λ a s. refl)
    where
      started : A → Call (Launched W) LaunchError A
      started a = modify (λ s. record s { events = push s.events e }) >> pure a

module _ {W : Type 0} where
  -- It cannot fail.
  pub starts-Ends : (e : Event) (g : W → W) → Ends (e ∷ []) [] (starts e g)
  starts-Ends e g s = refl

  pub starts_if-Emits : (b : Bool) (e : Event) (g : W → W) → Emits (optional b e) (starts_if b e g)
  starts_if-Emits true e g s = refl
  starts_if-Emits false e g s = sym (append-nil s.events)

  pub ensure_full-Emits : (b : Bool) → Emits [] (ensure_full {W = W} b)
  ensure_full-Emits true s = (λ h. ground arith, nothing)
  ensure_full-Emits false s = sym (append-nil s.events)

  pub expect-Emits : (o : Option ℕ) → is_some o ≡ true → Emits [] (expect {W = W} o)
  expect-Emits none h s = absurd (ground arith)
  expect-Emits (some a) h s = sym (append-nil s.events)
