-- ===== src/Staking/Issuance/Calls.antt =====
-- The calls of pallets/polkafoundry-staking/src/lib.rs leave the total issuance as it is.
use polkafoundry.Base.{
  ℕ, refl, arith, List, [], ◌∷◌, ◌∙◌, lookup, Origin, signed, root, unsigned, sum_of-push,
  Option-cases, inl, inr,
}
use polkafoundry.Currency.{IssuanceCounts}
use polkafoundry.Staking.Types.{Event, Bond}
use polkafoundry.Staking.State.{Config, Storage, withdraw_round}
use polkafoundry.Staking.Calls.{
  config, bond, force_onboard, bond_extra, bond_less, collator_unbond, leave_all, record_nomination,
  nominate, nominate_extra, nominate_less, nominator_leave_collator,
}
use polkafoundry.Staking.Ops.{Op, apply}
use polkafoundry.Staking.Issuance.{rewarded, Quiet, reserve_balance-total_issuance}

module _ {L : Type 0} (cfg : Config L) (law : IssuanceCounts cfg.currency) where
  leave_all-Quiet : (bs : List Bond) (s : Storage L) → Quiet cfg s (leave_all cfg bs s)
  unfolding leave_all
  leave_all-Quiet [] s = (refl, refl)
  leave_all-Quiet (b ∷ bs) s =
      let rest =
        leave_all-Quiet bs
          (record s { balances = (cfg.currency.unreserve b.owner b.amount s.balances).1 }) in
      (rest.0 ∙ law.unreserve_keeps b.owner b.amount s.balances, rest.1)

  collator_unbond-Quiet :
      (who : ℕ) (s : Storage L) → Quiet cfg s (collator_unbond cfg (signed who) s).1
  unfolding collator_unbond
  collator_unbond-Quiet who s = elim (Option-cases (lookup who s.collators)) [
    | inl e ↦ (ground arith, ground arith)
    | inr (c, e) ↦
        let freed = leave_all-Quiet c.nominations s in
        let event =
          sum_of-push rewarded (leave_all cfg c.nominations s).events
            (Event.candidate_leaving who (withdraw_round s)) in
        (ground (arith, freed), ground (arith, freed, event))
  ]

  signed-Quiet : (op : Op) (who : ℕ) (s : Storage L) → Quiet cfg s (apply cfg op (signed who) s).1
  unfolding apply config bond force_onboard bond_extra bond_less collator_unbond nominate
      nominate_extra nominate_less nominator_leave_collator record_nomination
  signed-Quiet (Op.config settings) who s = (refl, refl)
  signed-Quiet (Op.force_onboard candidate) who s = (refl, refl)
  signed-Quiet (Op.bond amount) who s =
      let reserved = reserve_balance-total_issuance cfg.currency law who amount s.balances in
      let event = sum_of-push rewarded s.events (Event.bonded who amount) in
      (ground (arith, reserved, event), ground (arith, reserved, event))
  signed-Quiet (Op.bond_extra extra) who s =
      let reserved = reserve_balance-total_issuance cfg.currency law who extra s.balances in
      let event = sum_of-push rewarded s.events (Event.bond_extra who extra) in
      (ground (arith, reserved, event), ground (arith, reserved, event))
  signed-Quiet (Op.bond_less less) who s =
      let event = sum_of-push rewarded s.events (Event.bond_less who less) in
      (ground (arith, event), ground (arith, event))
  signed-Quiet Op.collator_unbond who s = collator_unbond-Quiet who s
  signed-Quiet (Op.nominate candidate amount) who s =
      let reserved = reserve_balance-total_issuance cfg.currency law who amount s.balances in
      let event = sum_of-push rewarded s.events (Event.nominate candidate amount) in
      (ground (arith, reserved, event), ground (arith, reserved, event))
  signed-Quiet (Op.nominate_extra candidate extra) who s =
      let reserved = reserve_balance-total_issuance cfg.currency law who extra s.balances in
      let event = sum_of-push rewarded s.events (Event.nominate_extra candidate extra) in
      (ground (arith, reserved, event), ground (arith, reserved, event))
  signed-Quiet (Op.nominate_less candidate less) who s =
      let event = sum_of-push rewarded s.events (Event.nominate_less candidate less) in
      (ground (arith, event), ground (arith, event))
  signed-Quiet (Op.nominator_leave_collator candidate) who s =
      let event = sum_of-push rewarded s.events (Event.nominator_leave_collator who candidate) in
      (ground (arith, event), ground (arith, event))

  root-Quiet : (op : Op) (s : Storage L) → Quiet cfg s (apply cfg op root s).1
  unfolding apply config bond force_onboard bond_extra bond_less collator_unbond nominate
      nominate_extra nominate_less nominator_leave_collator record_nomination
  root-Quiet (Op.config settings) s =
      (refl, omega (arith, sum_of-push rewarded s.events (Event.setting_changed settings)))
  root-Quiet (Op.force_onboard candidate) s =
      let event = sum_of-push rewarded s.events (Event.candidate_onboard candidate) in
      (ground (arith, event), ground (arith, event))
  root-Quiet (Op.bond amount) s = (refl, refl)
  root-Quiet (Op.bond_extra extra) s = (refl, refl)
  root-Quiet (Op.bond_less less) s = (refl, refl)
  root-Quiet Op.collator_unbond s = (refl, refl)
  root-Quiet (Op.nominate candidate amount) s = (refl, refl)
  root-Quiet (Op.nominate_extra candidate extra) s = (refl, refl)
  root-Quiet (Op.nominate_less candidate less) s = (refl, refl)
  root-Quiet (Op.nominator_leave_collator candidate) s = (refl, refl)

  unsigned-Quiet : (op : Op) (s : Storage L) → Quiet cfg s (apply cfg op unsigned s).1
  unfolding apply config bond force_onboard bond_extra bond_less collator_unbond nominate
      nominate_extra nominate_less nominator_leave_collator
  unsigned-Quiet (Op.config settings) s = (refl, refl)
  unsigned-Quiet (Op.force_onboard candidate) s = (refl, refl)
  unsigned-Quiet (Op.bond amount) s = (refl, refl)
  unsigned-Quiet (Op.bond_extra extra) s = (refl, refl)
  unsigned-Quiet (Op.bond_less less) s = (refl, refl)
  unsigned-Quiet Op.collator_unbond s = (refl, refl)
  unsigned-Quiet (Op.nominate candidate amount) s = (refl, refl)
  unsigned-Quiet (Op.nominate_extra candidate extra) s = (refl, refl)
  unsigned-Quiet (Op.nominate_less candidate less) s = (refl, refl)
  unsigned-Quiet (Op.nominator_leave_collator candidate) s = (refl, refl)

  -- No call, by whatever origin, changes the issuance or reports a reward.
  pub apply-Quiet : (op : Op) (o : Origin) (s : Storage L) → Quiet cfg s (apply cfg op o s).1
  apply-Quiet op root s = root-Quiet op s
  apply-Quiet op (signed who) s = signed-Quiet op who s
  apply-Quiet op unsigned s = unsigned-Quiet op s
