-- ===== src/Staking/Calls.antt =====
-- The dispatchable calls of pallets/polkafoundry-staking/src/lib.rs (`#[pallet::call]`): those on a
-- collator's own bond are in Bonding, those on nominations in Nominating.
mod Bonding
mod Nominating
unfoldable pub use Bonding.*
unfoldable pub use Nominating.*
