-- ===== src/Node/Client/Wraps.antt =====
-- A `Client` of node/src/client.rs and the full client that it holds.
use polkafoundry.Base.{◌≡◌, refl}
use polkafoundry.Node.ChainSpec.{Runtime}
use polkafoundry.Node.Client.{FullClient, operations, wrap}

-- A client of any runtime answers each of its operations as the full client does that it was made of.
pub operations-wrap : (r : Runtime) (client : FullClient) → operations (wrap r client) ≡ client
unfolding operations wrap
operations-wrap Runtime.polka_foundry client = refl
operations-wrap Runtime.polka_smith client = refl
operations-wrap Runtime.halongbay client = refl
