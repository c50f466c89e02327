-- ===== src/Node/Service.antt =====
-- node/src/service.rs: which runtime a chain specification is for (`IdentifyVariant`), and which client
-- `new_chain_ops` asks `new_partial` for. A client is named by its runtime and by whether `new_partial` was
-- called for development, which picks the import queue of manual sealing.
pub mod Variant
use polkafoundry.Base.{Bool, true, false, ◌||◌, Result, ok, err, codes, starts_with, if◌then◌else◌}
use polkafoundry.Node.ChainSpec.{Runtime, Features, ChainSpec}

unfoldable pub is_polkafoundry : ChainSpec → Bool
is_polkafoundry s = starts_with s.id (codes "polkafoundry]") || starts_with s.id (codes "pkf")

unfoldable pub is_polkasmith : ChainSpec → Bool
is_polkasmith s = starts_with s.id (codes "polkasmith") || starts_with s.id (codes "pks")

unfoldable pub is_halongbay : ChainSpec → Bool
is_halongbay s = starts_with s.id (codes "halongbay") || starts_with s.id (codes "hlb")

pub record Client : Type 0 where
  pub runtime : Runtime
  pub dev : Bool

pub data ServiceError : Type 0 where
  not_available : Runtime → ServiceError
  light_client_not_supported : ServiceError

-- A client, or the error of a build without the runtime.
unfoldable pub client_of : Bool → Runtime → Bool → Result ServiceError Client
client_of present r dev =
    if present then ok (record { runtime = r; dev = dev }) else err (not_available r)

-- Which client `new_chain_ops` of Partial builds: the branch that it takes and the arguments of `new_partial`,
-- which can still fail.
unfoldable pub chosen_client : Features → ChainSpec → Result ServiceError Client
unfolding is_polkafoundry is_polkasmith client_of
chosen_client f s =
    if is_polkafoundry s
    then client_of f.polka_foundry Runtime.polka_foundry false
    else (if is_polkasmith s
        then client_of f.polka_smith Runtime.polka_smith false
        else client_of f.halongbay Runtime.halongbay true)
