-- ===== src/Node/Client.antt =====
-- node/src/client.rs: `Client`, one of the full clients of three runtimes, with the operations of the traits
-- `UsageProvider`, `StorageProvider` and `BlockBackend`, each of which goes to the client that it holds. A
-- full client is a record of those operations, which a library supplies. Keys, data and extrinsics are
-- byte strings; a value that the code only passes on is a number.
pub mod Wraps
use polkafoundry.Base.{ℕ, Bool, Option, List, Result}
use polkafoundry.Node.ChainSpec.{Runtime}

pub data BlockId : Type 0 where
  hash number : ℕ → BlockId

abbrev pub Bytes : Type 0
Bytes = List ℕ

-- `sp_blockchain::Result`; an error is a number.
abbrev pub Answer : Type 0 → Type 0
Answer A = Result ℕ A

pub record FullClient : Type 0 where
  pub usage_info : ℕ
  pub storage : BlockId → Bytes → Answer (Option Bytes)
  pub storage_keys : BlockId → Bytes → Answer (List Bytes)
  pub storage_hash : BlockId → Bytes → Answer (Option ℕ)
  pub storage_pairs : BlockId → Bytes → Answer (List (Bytes × Bytes))
  pub storage_keys_iter : BlockId → Option Bytes → Option Bytes → Answer (List Bytes)
  pub child_storage : BlockId → ℕ → Bytes → Answer (Option Bytes)
  pub child_storage_keys : BlockId → ℕ → Bytes → Answer (List Bytes)
  pub child_storage_hash : BlockId → ℕ → Bytes → Answer (Option ℕ)
  pub max_key_changes_range : ℕ → BlockId → Answer (Option (ℕ × BlockId))
  pub key_changes : ℕ → BlockId → Option Bytes → Bytes → Answer (List (ℕ × ℕ))
  pub block_body : BlockId → Answer (Option (List Bytes))
  pub block : BlockId → Answer (Option ℕ)
  pub block_status : BlockId → Answer ℕ
  pub justifications : BlockId → Answer (Option ℕ)
  pub block_hash : ℕ → Answer (Option ℕ)
  pub indexed_transaction : ℕ → Answer (Option Bytes)
  pub has_indexed_transaction : ℕ → Answer Bool

pub data Client : Type 0 where
  polka_foundry polka_smith halongbay : FullClient → Client

unfoldable pub usage_info : Client → ℕ
usage_info (Client.polka_foundry client) = client.usage_info
usage_info (Client.polka_smith client) = client.usage_info
usage_info (Client.halongbay client) = client.usage_info

unfoldable pub storage : Client → BlockId → Bytes → Answer (Option Bytes)
storage (Client.polka_foundry client) id key = client.storage id key
storage (Client.polka_smith client) id key = client.storage id key
storage (Client.halongbay client) id key = client.storage id key

unfoldable pub storage_keys : Client → BlockId → Bytes → Answer (List Bytes)
storage_keys (Client.polka_foundry client) id key_prefix = client.storage_keys id key_prefix
storage_keys (Client.polka_smith client) id key_prefix = client.storage_keys id key_prefix
storage_keys (Client.halongbay client) id key_prefix = client.storage_keys id key_prefix

unfoldable pub storage_hash : Client → BlockId → Bytes → Answer (Option ℕ)
storage_hash (Client.polka_foundry client) id key = client.storage_hash id key
storage_hash (Client.polka_smith client) id key = client.storage_hash id key
storage_hash (Client.halongbay client) id key = client.storage_hash id key

unfoldable pub storage_pairs : Client → BlockId → Bytes → Answer (List (Bytes × Bytes))
storage_pairs (Client.polka_foundry client) id key_prefix = client.storage_pairs id key_prefix
storage_pairs (Client.polka_smith client) id key_prefix = client.storage_pairs id key_prefix
storage_pairs (Client.halongbay client) id key_prefix = client.storage_pairs id key_prefix

unfoldable pub storage_keys_iter :
    Client → BlockId → Option Bytes → Option Bytes → Answer (List Bytes)
storage_keys_iter (Client.polka_foundry client) id prefix start_key =
    client.storage_keys_iter id prefix start_key
storage_keys_iter (Client.polka_smith client) id prefix start_key =
    client.storage_keys_iter id prefix start_key
storage_keys_iter (Client.halongbay client) id prefix start_key =
    client.storage_keys_iter id prefix start_key

unfoldable pub child_storage : Client → BlockId → ℕ → Bytes → Answer (Option Bytes)
child_storage (Client.polka_foundry client) id child_info key =
    client.child_storage id child_info key
child_storage (Client.polka_smith client) id child_info key = client.child_storage id child_info key
child_storage (Client.halongbay client) id child_info key = client.child_storage id child_info key

unfoldable pub child_storage_keys : Client → BlockId → ℕ → Bytes → Answer (List Bytes)
child_storage_keys (Client.polka_foundry client) id child_info key_prefix =
    client.child_storage_keys id child_info key_prefix
child_storage_keys (Client.polka_smith client) id child_info key_prefix =
    client.child_storage_keys id child_info key_prefix
child_storage_keys (Client.halongbay client) id child_info key_prefix =
    client.child_storage_keys id child_info key_prefix

unfoldable pub child_storage_hash : Client → BlockId → ℕ → Bytes → Answer (Option ℕ)
child_storage_hash (Client.polka_foundry client) id child_info key =
    client.child_storage_hash id child_info key
child_storage_hash (Client.polka_smith client) id child_info key =
    client.child_storage_hash id child_info key
child_storage_hash (Client.halongbay client) id child_info key =
    client.child_storage_hash id child_info key

unfoldable pub max_key_changes_range : Client → ℕ → BlockId → Answer (Option (ℕ × BlockId))
max_key_changes_range (Client.polka_foundry client) first last =
    client.max_key_changes_range first last
max_key_changes_range (Client.polka_smith client) first last =
    client.max_key_changes_range first last
max_key_changes_range (Client.halongbay client) first last = client.max_key_changes_range first last

unfoldable pub key_changes : Client → ℕ → BlockId → Option Bytes → Bytes → Answer (List (ℕ × ℕ))
key_changes (Client.polka_foundry client) first last storage_key key =
    client.key_changes first last storage_key key
key_changes (Client.polka_smith client) first last storage_key key =
    client.key_changes first last storage_key key
key_changes (Client.halongbay client) first last storage_key key =
    client.key_changes first last storage_key key

unfoldable pub block_body : Client → BlockId → Answer (Option (List Bytes))
block_body (Client.polka_foundry client) id = client.block_body id
block_body (Client.polka_smith client) id = client.block_body id
block_body (Client.halongbay client) id = client.block_body id

unfoldable pub block : Client → BlockId → Answer (Option ℕ)
block (Client.polka_foundry client) id = client.block id
block (Client.polka_smith client) id = client.block id
block (Client.halongbay client) id = client.block id

unfoldable pub block_status : Client → BlockId → Answer ℕ
block_status (Client.polka_foundry client) id = client.block_status id
block_status (Client.polka_smith client) id = client.block_status id
block_status (Client.halongbay client) id = client.block_status id

unfoldable pub justifications : Client → BlockId → Answer (Option ℕ)
justifications (Client.polka_foundry client) id = client.justifications id
justifications (Client.polka_smith client) id = client.justifications id
justifications (Client.halongbay client) id = client.justifications id

unfoldable pub block_hash : Client → ℕ → Answer (Option ℕ)
block_hash (Client.polka_foundry client) n = client.block_hash n
block_hash (Client.polka_smith client) n = client.block_hash n
block_hash (Client.halongbay client) n = client.block_hash n

unfoldable pub indexed_transaction : Client → ℕ → Answer (Option Bytes)
indexed_transaction (Client.polka_foundry client) h = client.indexed_transaction h
indexed_transaction (Client.polka_smith client) h = client.indexed_transaction h
indexed_transaction (Client.halongbay client) h = client.indexed_transaction h

unfoldable pub has_indexed_transaction : Client → ℕ → Answer Bool
has_indexed_transaction (Client.polka_foundry client) h = client.has_indexed_transaction h
has_indexed_transaction (Client.polka_smith client) h = client.has_indexed_transaction h
has_indexed_transaction (Client.halongbay client) h = client.has_indexed_transaction h

-- The operations of a client, as one record: what a command that is given the client can call.
unfoldable pub operations : Client → FullClient
unfolding usage_info storage storage_keys storage_hash storage_pairs storage_keys_iter child_storage
    child_storage_keys child_storage_hash max_key_changes_range key_changes block_body block
    block_status justifications block_hash indexed_transaction has_indexed_transaction
operations c = record {
  usage_info = usage_info c;
  storage = storage c;
  storage_keys = storage_keys c;
  storage_hash = storage_hash c;
  storage_pairs = storage_pairs c;
  storage_keys_iter = storage_keys_iter c;
  child_storage = child_storage c;
  child_storage_keys = child_storage_keys c;
  child_storage_hash = child_storage_hash c;
  max_key_changes_range = max_key_changes_range c;
  key_changes = key_changes c;
  block_body = block_body c;
  block = block c;
  block_status = block_status c;
  justifications = justifications c;
  block_hash = block_hash c;
  indexed_transaction = indexed_transaction c;
  has_indexed_transaction = has_indexed_transaction c;
}

-- `Client::PolkaFoundry(client)` and its fellows, in `new_chain_ops`.
unfoldable pub wrap : Runtime → FullClient → Client
wrap Runtime.polka_foundry client = Client.polka_foundry client
wrap Runtime.polka_smith client = Client.polka_smith client
wrap Runtime.halongbay client = Client.halongbay client
