-- ===== src/Lib.antt =====
-- PolkaFoundry: the pallets of its runtimes and the node (paths are from the repository's root).
--
-- The program is a set of Substrate runtimes and the node that runs them. What is modelled here is their
-- own logic, the pallets with their composition, and what the node decides:
--
--   Staking       pallets/polkafoundry-staking/src (lib.rs, inflation.rs, taylor_series.rs): collators
--                 bond, nominators nominate them, and at the end of a round `on_finalize` pays rewards,
--                 releases what has come due and asks for an election.
--     Types, Round, Bonds, Collator, Nominator   the data types and the methods of the ledgers
--     Search                 `binary_search` of the standard library's slices, which `add_nomination` calls
--     State                  `Storage`, one field for each storage item, and `Config`
--     Calls (Bonding, Nominating), Ops   the dispatchables, and a call as a value
--     Payout, Updates, Election, RoundEnd   the steps of `on_finalize`, in its order
--     Taylor, Inflation      `compute_inflation` and `compute_total_payout`
--     Authorship, Genesis    `note_author`, `can_author` and `GenesisBuild::build`
--     Atomic, Books, Reach, Mirror, Gaps    theorems on the calls and on the life of the pallet
--     Announced              the total stake and the events of the calls
--     Departure              an exit from its entry in the queue until it leaves
--     Issuance               the total issuance over the life of the pallet
--   Crowdloan     pallets/crowdloan-rewards/src/lib.rs: rewards that are claimed block by block.
--   Treasury      pallets/treasury/src/lib.rs: donations and allocations.
--   Author        pallets/author-inherent/src/lib.rs: the author of a block, which `set_author` stores,
--                 and in Inherents the node's side of the inherent and `find_author`.
--   Runtime       runtime/halongbay/src/lib.rs: the crowdloan and the treasury pallet over the same balances
--                 and the same account; in Ethereum its interface for the Ethereum RPC; in Constants
--                 runtime/*/src/constants.rs. (The staking pallet is
--                 commented out of this runtime, and the author pallet is in none.)
--   Node          node/src: which runtime a chain specification is for, and what is started.
--     ChainSpec              chain_spec: the staging specifications of the three runtimes
--     Service, Command       service.rs and command.rs: `IdentifyVariant`, the branches of `new_chain_ops`, `load_spec` and
--                            `native_runtime_version`
--     Configuration, Run, Rpc   command.rs, service.rs, cli.rs and rpc.rs: `run` without a subcommand up to its
--                            call of `start_node` or `start_dev`, and `create_full`
--     Partial                service.rs: `new_partial`, and what `new_chain_ops` takes of it
--     Client                 client.rs: the client of one of three runtimes and its operations
--     Subcommand             command.rs and cli.rs: the subcommands of `run`
--     RelayChain             command.rs and cli.rs: `RelayChainCli`
--     Launch                 service.rs: what `start_node_impl` and `start_dev` build and spawn, in their order
--     Pools                  service.rs: the tasks that clean the pools of the Ethereum RPC at each block
--   MultiAddress  runtime/halongbay/src/multiaddress.rs: addresses, their lookup and their printed form.
--   Base          shared types and lemmas: tests on numbers, lists, machine words, storage maps, texts,
--                 calls that fail.
--   Currency, PerThing, BigUint   the interfaces of libraries that are not part of the repository, with
--                 what their documentation says as named laws; Samples has a value for each.
--
-- A function of the model has the name of the function of the program, and a constructor or a field that
-- of the variant or the field, in this language's spelling. A dispatchable is a function from the storage
-- to its result and the storage after it. The storage comes back after an error too: no call is marked
-- `#[transactional]`, so what a call has written stays when it fails. A storage map is a list of entries in
-- the order in which `iter` visits them; the events of a block are a list
-- (frame_system drops those of block 0, the list has them).
--
-- Numbers: a balance is a `u128`, a round index, a block number and a reward point a `u32`;
-- the node's pools count blocks in a `u64`. The release
-- profile does not check overflow, so `+`, `-` and `*` wrap around and are written with `% 2 ^ w` (Base/Words);
-- a panic is a result of its own. Account ids are numbers in the order of their bytes.
--
-- Fuel: `binary_search` gets as many rounds as the list has elements, and each round shortens its range.
-- The Taylor series has the 299 rounds of the source's `for` loop. All other loops follow a list.
--
-- Not modelled: weights, logs, the encoding of the storage, the storage version and the struct
-- `Proposal`, which nothing uses; of the runtimes the configuration of pallets of libraries and the
-- runtime APIs but the Ethereum one, each of which hands a call on to a library; of the node `main`, the
-- author and the description of the program, and what networks and RPC servers do. What a library's
-- command does with a client, what a library builds for a node, the election provider, the EVM, the
-- signature check, the codec, `InherentData`, the accounts of pallets, the files and the parsers of
-- options and specifications are parameters.
pub mod Base
pub mod Currency
pub mod PerThing
pub mod BigUint
pub mod Staking
pub mod Treasury
pub mod Crowdloan
pub mod Author
pub mod MultiAddress
pub mod Node
pub mod Runtime
mod Samples
