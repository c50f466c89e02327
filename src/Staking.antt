-- ===== src/Staking.antt =====
-- The staking pallet, pallets/polkafoundry-staking/src: its data in Types, Round, Bonds, Collator and
-- Nominator, its storage in State, its calls in Calls and Ops, the end of a round in RoundEnd with
-- Payout, Updates and Election, the formulas in Taylor and Inflation, the rest in Authorship and Genesis.
pub mod Types
pub mod Round
pub mod Search
pub mod Bonds
pub mod Collator
pub mod Nominator
pub mod State
pub mod Calls
pub mod Ops
pub mod Announced
pub mod Atomic
pub mod Books
pub mod Gaps
pub mod Mirror
pub mod Updates
pub mod Taylor
pub mod Inflation
pub mod Payout
pub mod Election
pub mod RoundEnd
pub mod Authorship
pub mod Reach
pub mod Departure
pub mod Issuance
pub mod Genesis
mod Tests
