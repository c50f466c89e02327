-- ===== src/Node/Command/Loading.antt =====
-- Which runtime a specification that `load_spec` of node/src/command.rs gives is for.
use polkafoundry.Base.{
  ℕ, ◌≡◌, refl, ap, ◌∙◌, arith, Bool, true, false, ◌&&◌, Option, none, some, List, [], Result, ok,
  err, codes, same_text, if◌then◌else◌,
}
use polkafoundry.Node.ChainSpec.{
  Runtime, Features, ChainSpec, SpecError, not_available, enabled, staging_testnet_config,
}
use polkafoundry.Node.Command.{Files, load_path, load_spec}

-- The parser for a runtime makes specifications for that runtime.
pub record ReadsAs (files : Files) : Type 0 where
  pub embedded_as : (r : Runtime) (s : ChainSpec) → files.embedded r ≡ ok s → s.runtime ≡ r
  pub from_json_as :
      (r : Runtime) (path : List ℕ) (s : ChainSpec)
      → files.from_json_file r path ≡ ok s
      → s.runtime ≡ r

staging_as :
    (r : Runtime) (w : Option (List ℕ)) (s : ChainSpec)
    → staging_testnet_config r w ≡ ok s
    → s.runtime ≡ r
unfolding staging_testnet_config
staging_as r none s h = absurd (ground arith)
staging_as r (some w) s h = ground arith

-- One arm of a `match` and the arms after it.
arm_or :
    {G : Type 0} (b c : Bool) (x y : Result SpecError ChainSpec) (s : ChainSpec)
    → (b ≡ true → x ≡ ok s → G)
    → (y ≡ ok s → G)
    → (if b && c then x else y) ≡ ok s
    → G
arm_or true true x y s here later h = here refl h
arm_or true false x y s here later h = later h
arm_or false c x y s here later h = later h

module _ (f : Features) (files : Files) (law : ReadsAs files) where
  -- A specification for a runtime of the build.
  built_for :
      (r : Runtime) (s : ChainSpec)
      → enabled f r ≡ true
      → s.runtime ≡ r
      → enabled f s.runtime ≡ true
  built_for r s on e = ap (enabled f) e ∙ on

  of_path :
      (present : Bool) (r : Runtime) (path : List ℕ) (s : ChainSpec)
      → enabled f r ≡ present
      → (if present then files.from_json_file r path else err not_available) ≡ ok s
      → enabled f s.runtime ≡ true
  of_path true r path s on h = built_for r s on (law.from_json_as r path s h)
  of_path false r path s on h = absurd (ground arith)

  load_path-enabled :
      (path : List ℕ) (s : ChainSpec) → load_path f files path ≡ ok s → enabled f s.runtime ≡ true
  unfolding load_path enabled
  load_path-enabled path s h = ground (
    arith,
    of_path f.polka_foundry Runtime.polka_foundry path s refl,
    of_path f.polka_smith Runtime.polka_smith path s refl,
    of_path f.halongbay Runtime.halongbay path s refl,
  )

  embedded_built :
      (r : Runtime) (s : ChainSpec)
      → enabled f r ≡ true
      → files.embedded r ≡ ok s
      → enabled f s.runtime ≡ true
  embedded_built r s on h = built_for r s on (law.embedded_as r s h)

  staging_built :
      (r : Runtime) (s : ChainSpec)
      → enabled f r ≡ true
      → staging_testnet_config r (files.wasm_binary r) ≡ ok s
      → enabled f s.runtime ≡ true
  staging_built r s on h = built_for r s on (staging_as r (files.wasm_binary r) s h)

  -- A specification that `load_spec` gives, for whatever id or path, is one for a runtime that the build has,
  -- if the parser for a runtime makes specifications for that runtime.
  pub load_spec-enabled :
      (id : List ℕ) (s : ChainSpec) → load_spec f files id ≡ ok s → enabled f s.runtime ≡ true
  unfolding load_spec enabled
  load_spec-enabled id s h =
      arm_or f.polka_foundry (same_text id (codes "polkafoundry")) _ _ s
        (embedded_built Runtime.polka_foundry s)
        (arm_or f.polka_foundry (same_text id (codes "polkafoundry-dev")) _ _ s
          (staging_built Runtime.polka_foundry s)
          (arm_or f.polka_smith (same_text id (codes "polkasmith")) _ _ s
            (embedded_built Runtime.polka_smith s)
            (arm_or f.polka_smith (same_text id (codes "polkasmith-dev")) _ _ s
              (staging_built Runtime.polka_smith s)
              (arm_or f.halongbay (same_text id (codes "halongbay")) _ _ s
                (embedded_built Runtime.halongbay s)
                (arm_or f.halongbay (same_text id []) _ _ s (staging_built Runtime.halongbay s)
                  (load_path-enabled id s))))))
        h
