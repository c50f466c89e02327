-- ===== src/Node/Command.antt =====
-- node/src/command.rs: loading a chain specification by its id or path, and the native runtime of a
-- specification. JSON specifications come from a parameter, which stands for the parser and the files.
pub mod Loading
use polkafoundry.Base.{
  ℕ, Bool, false, ◌&&◌, Option, none, some, List, [], ◌∷◌, ◌++◌, Result, err, codes, starts_with,
  same_text, ◌==◌, if◌then◌else◌,
}
use polkafoundry.Node.ChainSpec.{
  Runtime, Features, ChainSpec, SpecError, not_available, staging_testnet_config,
}
use polkafoundry.Node.Service.{is_polkafoundry, is_polkasmith}

-- What the build and the files supply: the embedded specification of a runtime, a specification read
-- from a path, and the wasm binary of a runtime.
pub record Files : Type 0 where
  pub embedded : Runtime → Result SpecError ChainSpec
  pub from_json_file : Runtime → List ℕ → Result SpecError ChainSpec
  pub wasm_binary : Runtime → Option (List ℕ)

-- The components of a path, without the empty ones and `.`; 47 is the slash.
unfoldable pub keep_component : List ℕ → List (List ℕ) → List (List ℕ)
keep_component c cs =
    if same_text c [] then cs else (if same_text c (codes ".") then cs else c ∷ cs)

unfoldable pub components : List ℕ → List ℕ → List (List ℕ)
unfolding keep_component
components cur [] = keep_component cur []
components cur (c ∷ path) =
    let closed = keep_component cur (components [] path) in
    let longer = components (cur ++ c ∷ []) path in if c == 47 then closed else longer

unfoldable pub last_component : List (List ℕ) → Option (List ℕ)
last_component [] = none
last_component (c ∷ []) = if same_text c (codes "..") then none else some c
last_component (c ∷ d ∷ cs) = last_component (d ∷ cs)

-- `path.file_name()` of the standard library
unfoldable pub file_name : List ℕ → Option (List ℕ)
unfolding components last_component
file_name path = last_component (components [] path)

unfoldable pub file_starts_with : List ℕ → List ℕ → Bool
unfolding file_name
file_starts_with path prefix = elim (file_name path) [
  | none ↦ false
  | some f ↦ starts_with f prefix
]

-- The last arm of the `match`: the file's name says for which runtime the specification is.
unfoldable pub load_path : Features → Files → List ℕ → Result SpecError ChainSpec
unfolding file_starts_with
load_path f files path =
    let of = λ (present : Bool) (r : Runtime).
      if present then files.from_json_file r path else err not_available in
    if file_starts_with path (codes "polkafoundry")
    then of f.polka_foundry Runtime.polka_foundry
    else (if file_starts_with path (codes "polkasmith")
        then of f.polka_smith Runtime.polka_smith
        else of f.halongbay Runtime.halongbay)

-- An arm of the `match` stands only in a build with its runtime.
unfoldable pub load_spec : Features → Files → List ℕ → Result SpecError ChainSpec
unfolding load_path staging_testnet_config
load_spec f files id =
    if f.polka_foundry && same_text id (codes "polkafoundry")
    then files.embedded Runtime.polka_foundry
    else (if f.polka_foundry && same_text id (codes "polkafoundry-dev")
        then staging_testnet_config Runtime.polka_foundry (files.wasm_binary Runtime.polka_foundry)
        else (if f.polka_smith && same_text id (codes "polkasmith")
            then files.embedded Runtime.polka_smith
            else (if f.polka_smith && same_text id (codes "polkasmith-dev")
                then staging_testnet_config Runtime.polka_smith
                    (files.wasm_binary Runtime.polka_smith)
                else (if f.halongbay && same_text id (codes "halongbay")
                    then files.embedded Runtime.halongbay
                    else (if f.halongbay && same_text id []
                        then staging_testnet_config Runtime.halongbay
                            (files.wasm_binary Runtime.halongbay)
                        else load_path f files id)))))

-- The runtime whose version is reported; `none` is a panic.
unfoldable pub native_runtime_version : Features → ChainSpec → Option Runtime
unfolding is_polkafoundry is_polkasmith
native_runtime_version f s =
    if is_polkafoundry s
    then (if f.polka_foundry then some Runtime.polka_foundry else none)
    else (if is_polkasmith s
        then (if f.polka_smith then some Runtime.polka_smith else none)
        else (if f.halongbay then some Runtime.halongbay else none))
