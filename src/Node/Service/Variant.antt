-- ===== src/Node/Service/Variant.antt =====
-- Which runtime a chain specification runs on: `native_runtime_version` of node/src/command.rs and
-- `new_chain_ops` of node/src/service.rs.
use polkafoundry.Base.{
  ℕ, ◌≡◌, refl, arith, Bool, true, false, ◌||◌, ◌++◌, ◌≢◌, none, some, List, ◌∷◌, ok, err, codes,
  starts_with, if◌then◌else◌, Bool-cases, inl, inr, ap, ◌∙◌,
}
use polkafoundry.Node.ChainSpec.{Runtime, Features, ChainSpec, enabled}
use polkafoundry.Node.Service.{
  is_polkafoundry, is_polkasmith, ServiceError, not_available, client_of, chosen_client,
}
use polkafoundry.Node.Command.{native_runtime_version}

-- The client of Halongbay is one for development.
abbrev pub develops : Runtime → Bool
develops Runtime.halongbay = true
develops _ = false

-- A choice of a runtime: a client of it, or the error of a build without it.
record Choice (f : Features) (s : ChainSpec) : Type 0 where
  runtime : Runtime
  dev : Bool
  of_runtime : dev ≡ develops runtime
  native : native_runtime_version f s ≡ (if enabled f runtime then some runtime else none)
  client : chosen_client f s ≡ client_of (enabled f runtime) runtime dev

choose : (f : Features) (s : ChainSpec) → Choice f s
unfolding native_runtime_version chosen_client enabled
choose f s = elim (Bool-cases (is_polkafoundry s)) [
  | inl p ↦ record {
    runtime = Runtime.polka_foundry;
    dev = false;
    of_runtime = refl;
    native = rw p refl;
    client = rw p refl;
  }
  | inr np ↦ elim (Bool-cases (is_polkasmith s)) [
    | inl k ↦ record {
      runtime = Runtime.polka_smith;
      dev = false;
      of_runtime = refl;
      native = rw (np, k) refl;
      client = rw (np, k) refl;
    }
    | inr nk ↦ record {
      runtime = Runtime.halongbay;
      dev = true;
      of_runtime = refl;
      native = rw (np, nk) refl;
      client = rw (np, nk) refl;
    }
  ]
]

pub chosen_client-native :
    (f : Features) (s : ChainSpec) (r : Runtime)
    → native_runtime_version f s ≡ some r
    → chosen_client f s ≡ ok (record { runtime = r; dev = develops r })
unfolding client_of
chosen_client-native f s r h =
    let c = choose f s in
    elim (Bool-cases (enabled f c.runtime)) [
      | inl on ↦ ground (arith, c.native, c.client, c.of_runtime)
      | inr off ↦ absurd (ground (arith, c.native))
    ]

pub chosen_client-none :
    (f : Features) (s : ChainSpec)
    → native_runtime_version f s ≡ none
    → (e : ServiceError) × (chosen_client f s ≡ err e)
unfolding client_of
chosen_client-none f s h =
    let c = choose f s in
    elim (Bool-cases (enabled f c.runtime)) [
      | inl on ↦ absurd (ground (arith, c.native))
      | inr off ↦ (not_available c.runtime, ground (arith, c.client))
    ]

-- What the tests make of an id that goes on after `polkafoundry`; 93 is the bracket.
misread_polkafoundry :
    (c : ℕ) (rest : List ℕ)
    → c ≢ 93
    → let id = codes "polkafoundry" ++ c ∷ rest in
      (starts_with id (codes "polkafoundry]") || starts_with id (codes "pkf")) ≡ false
misread_polkafoundry c rest ne = ground arith

-- The test for PolkaFoundry asks for a bracket after the name: a specification whose id goes on in any
-- other way after `polkafoundry`, like that of the staging network, is taken for one of Halongbay. With
-- Halongbay in the build it gets that native runtime, and `new_chain_ops` asks for that runtime's development
-- client; without, asking for the version panics and there is no client, whether the build has PolkaFoundry
-- or not.
pub is_polkafoundry_misses :
    (f : Features) (s : ChainSpec) (c : ℕ) (rest : List ℕ)
    → s.id ≡ codes "polkafoundry" ++ c ∷ rest
    → c ≢ 93
    → (native_runtime_version f s ≡ (if f.halongbay then some Runtime.halongbay else none))
      × (chosen_client f s ≡ client_of f.halongbay Runtime.halongbay true)
unfolding native_runtime_version chosen_client is_polkafoundry is_polkasmith
is_polkafoundry_misses f s c rest e ne =
    let not_foundry : is_polkafoundry s ≡ false = ap is_id e ∙ misread_polkafoundry c rest ne in
    let not_smith : is_polkasmith s ≡ false = ap is_smith e in
    (rw (not_foundry, not_smith) refl, rw (not_foundry, not_smith) refl)
  where
    is_id : List ℕ → Bool
    is_id id = starts_with id (codes "polkafoundry]") || starts_with id (codes "pkf")

    is_smith : List ℕ → Bool
    is_smith id = starts_with id (codes "polkasmith") || starts_with id (codes "pks")
