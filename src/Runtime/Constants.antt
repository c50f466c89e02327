-- ===== src/Runtime/Constants.antt =====
-- runtime/*/src/constants.rs: the time, the EVM's chain id and the address prefix of the three runtimes. A
-- block number is a `u32`.
use polkafoundry.Base.{ℕ, ◌*◌, ◌/◌}
use polkafoundry.Node.ChainSpec.{Runtime}

abbrev pub millisecs_per_block : Runtime → ℕ
millisecs_per_block Runtime.halongbay = 12000
millisecs_per_block _ = 6000

abbrev pub slot_duration : Runtime → ℕ
slot_duration r = millisecs_per_block r

abbrev pub minutes : Runtime → ℕ
minutes r = 60000 / millisecs_per_block r

abbrev pub hours : Runtime → ℕ
hours r = minutes r * 60

abbrev pub days : Runtime → ℕ
days r = hours r * 24

abbrev pub chain_id : Runtime → ℕ
chain_id Runtime.polka_foundry = 13
chain_id _ = 11

abbrev pub ss58_prefix : Runtime → ℕ
ss58_prefix Runtime.polka_foundry = 99
ss58_prefix _ = 42
