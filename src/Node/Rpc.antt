-- ===== src/Node/Rpc.antt =====
-- `create_full` of node/src/rpc.rs: which RPC interfaces a full node serves, in the order in which they
-- are added. A build without the runtime panics, `none`.
use polkafoundry.Base.{ℕ, Bool, Option, none, some, List, [], ◌∷◌, ◌++◌, if◌then◌else◌}
use polkafoundry.Node.ChainSpec.{Runtime, Features, enabled}

pub data Api : Type 0 where
  system transaction_payment net web3 eth_pub_sub manual_seal : Api
  -- with the runtime whose transaction converter is used, and whether the node is an authority
  eth : Runtime → Bool → Api
  -- with the number of filters that are stored at most
  eth_filter : ℕ → Api

pub record FullDeps : Type 0 where
  pub is_authority : Bool
  pub filter_pool : Bool
  pub command_sink : Bool

-- Without a forced chain the runtime is Halongbay.
unfoldable pub served_runtime : Option Runtime → Runtime
served_runtime none = Runtime.halongbay
served_runtime (some r) = r

unfoldable pub create_full : Features → FullDeps → Option Runtime → Option (List Api)
unfolding served_runtime enabled
create_full f deps runtime =
    let r = served_runtime runtime in
    let filters = if deps.filter_pool then eth_filter 500 ∷ [] else [] in
    let seal = if deps.command_sink then manual_seal ∷ [] else [] in
    let apis =
      (system ∷ transaction_payment ∷ eth r deps.is_authority ∷ [])
      ++ (filters ++ (net ∷ web3 ∷ eth_pub_sub ∷ seal)) in
    if enabled f r then some apis else none
