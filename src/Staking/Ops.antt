-- ===== src/Staking/Ops.antt =====
-- A call of the staking pallet as a value, and its dispatch (`#[pallet::call]` of
-- pallets/polkafoundry-staking/src/lib.rs).
use polkafoundry.Base.{ℕ, Origin}
use polkafoundry.Staking.Types.{SettingStruct}
use polkafoundry.Staking.State.{Config, Dispatch}
use polkafoundry.Staking.Calls

pub data Op : Type 0 where
  config : SettingStruct → Op
  bond bond_extra bond_less force_onboard : ℕ → Op
  collator_unbond : Op
  nominate nominate_extra nominate_less : ℕ → ℕ → Op
  nominator_leave_collator : ℕ → Op

unfoldable pub apply : {L : Type 0} → Config L → Op → Origin → Dispatch L
apply cfg (Op.config settings) o = Calls.config cfg o settings
apply cfg (Op.bond amount) o = Calls.bond cfg o amount
apply cfg (Op.bond_extra extra) o = Calls.bond_extra cfg o extra
apply cfg (Op.bond_less less) o = Calls.bond_less cfg o less
apply cfg (Op.force_onboard candidate) o = Calls.force_onboard cfg o candidate
apply cfg Op.collator_unbond o = Calls.collator_unbond cfg o
apply cfg (Op.nominate candidate amount) o = Calls.nominate cfg o candidate amount
apply cfg (Op.nominate_extra candidate extra) o = Calls.nominate_extra cfg o candidate extra
apply cfg (Op.nominate_less candidate less) o = Calls.nominate_less cfg o candidate less
apply cfg (Op.nominator_leave_collator candidate) o = Calls.nominator_leave_collator cfg o candidate
