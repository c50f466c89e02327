-- ===== src/Node.antt =====
-- The node's own decisions: node/src/chain_spec (ChainSpec), node/src/client.rs (Client), node/src/service.rs
-- (Service, Partial, Launch, Pools), node/src/command.rs and node/src/cli.rs (Configuration, Command,
-- Subcommand, RelayChain, Run), node/src/rpc.rs (Rpc).
pub mod ChainSpec
pub mod Configuration
pub mod Client
pub mod Partial
pub mod Service
pub mod Command
pub mod Subcommand
pub mod RelayChain
pub mod Rpc
pub mod Run
pub mod Launch
pub mod Pools
mod Tests
