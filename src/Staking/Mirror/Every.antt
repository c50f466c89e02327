-- ===== src/Staking/Mirror/Every.antt =====
-- The records of nominations under the calls of pallets/polkafoundry-staking/src/lib.rs.
use polkafoundry.Base.{
  ℕ, ◌≡◌, refl, arith, some, lookup, insert, lookup-insert, Origin, signed, root, unsigned,
  Option-cases, inl, inr,
}
use polkafoundry.Staking.Round.{next_round_index}
use polkafoundry.Staking.Collator
use polkafoundry.Staking.Collator.{StakingCollators}
use polkafoundry.Staking.State.{Config, Storage, withdraw_round}
use polkafoundry.Staking.Calls.{
  config, force_onboard, bond_extra, bond_less, nominate_extra, nominate_less,
  nominator_leave_collator,
}
use polkafoundry.Staking.Ops.{Op, apply}
use polkafoundry.Staking.Mirror.{
  Agree, IsMirrored, nominate_extra-IsMirrored, nominate_less-IsMirrored,
  nominator_leave_collator-IsMirrored,
}

-- Every call but those that make a collator, drop one or make a nomination.
abbrev pub KeepsNominations : Op → Type 0
KeepsNominations (Op.bond _) = ⊥
KeepsNominations Op.collator_unbond = ⊥
KeepsNominations (Op.nominate _ _) = ⊥
KeepsNominations _ = Unit

module _ {L : Type 0} (cfg : Config L) where
  -- A collator's ledger is written again with the same nominations.
  rewrite-Agree :
      (k w j : ℕ) (c c' : StakingCollators) (s : Storage L)
      → IsMirrored s
      → lookup k s.collators ≡ some c
      → c'.nominations ≡ c.nominations
      → Agree w j (lookup w s.nominators) (lookup j (insert k c' s.collators))
  rewrite-Agree k w j c c' s m e same = elim (Option-cases (lookup w s.nominators)) [
    | inl none_w ↦ ground (arith, m w j, lookup-insert k j c' s.collators)
    | inr (n, some_w) ↦ ground (arith, m w j, lookup-insert k j c' s.collators)
  ]

  bond_extra-nominations :
      (extra next_round : ℕ) (c : StakingCollators)
      → (Collator.bond_extra extra next_round c).nominations ≡ c.nominations
  unfolding Collator.bond_extra
  bond_extra-nominations extra next_round c = refl

  bond_less-nominations :
      (less when : ℕ) (c : StakingCollators)
      → (Collator.bond_less less when c).0.nominations ≡ c.nominations
  unfolding Collator.bond_less
  bond_less-nominations less when c = ground arith

  force_bond-nominations :
      (c : StakingCollators) → (Collator.force_bond c).nominations ≡ c.nominations
  unfolding Collator.force_bond
  force_bond-nominations c = refl

  bond_extra-IsMirrored :
      (who extra : ℕ) (s : Storage L)
      → IsMirrored s
      → IsMirrored (bond_extra cfg (signed who) extra s).1
  unfolding bond_extra
  bond_extra-IsMirrored who extra s m w j = elim (Option-cases (lookup who s.collators)) [
    | inl e ↦ ground (arith, m w j)
    | inr (c, e) ↦
        let r = next_round_index s.current_round in
        let c' = Collator.bond_extra extra r c in
        let same = bond_extra-nominations extra r c in
        ground (arith, m w j, rewrite-Agree who w j c c' s m e same)
  ]

  bond_less-IsMirrored :
      (who less : ℕ) (s : Storage L)
      → IsMirrored s
      → IsMirrored (bond_less cfg (signed who) less s).1
  unfolding bond_less
  bond_less-IsMirrored who less s m w j = elim (Option-cases (lookup who s.collators)) [
    | inl e ↦ ground (arith, m w j)
    | inr (c, e) ↦
        let c' = (Collator.bond_less less (withdraw_round s) c).0 in
        let same = bond_less-nominations less (withdraw_round s) c in
        ground (arith, m w j, rewrite-Agree who w j c c' s m e same)
  ]

  force_onboard-IsMirrored :
      (candidate : ℕ) (s : Storage L)
      → IsMirrored s
      → IsMirrored (force_onboard cfg root candidate s).1
  unfolding force_onboard
  force_onboard-IsMirrored k s m w j = elim (Option-cases (lookup k s.collators)) [
    | inl e ↦ ground (arith, m w j)
    | inr (c, e) ↦
        let same = force_bond-nominations c in
        ground (arith, m w j, rewrite-Agree k w j c (Collator.force_bond c) s m e same)
  ]

  -- Every call but `bond`, `nominate` and `collator_unbond`, by whatever origin and whether it succeeds or
  -- fails, keeps the two records of every nomination equal, with the nominator and with the collator.
  pub apply-IsMirrored :
      (op : Op) (o : Origin) (s : Storage L)
      → KeepsNominations op
      → IsMirrored s
      → IsMirrored (apply cfg op o s).1
  unfolding apply config force_onboard bond_extra bond_less nominate_extra nominate_less
      nominator_leave_collator
  apply-IsMirrored (Op.bond amount) o s b m = absurd b
  apply-IsMirrored Op.collator_unbond o s b m = absurd b
  apply-IsMirrored (Op.nominate candidate amount) o s b m = absurd b
  apply-IsMirrored (Op.config settings) root s b m = m
  apply-IsMirrored (Op.force_onboard candidate) root s b m = force_onboard-IsMirrored candidate s m
  apply-IsMirrored (Op.bond_extra extra) (signed who) s b m = bond_extra-IsMirrored who extra s m
  apply-IsMirrored (Op.bond_less less) (signed who) s b m = bond_less-IsMirrored who less s m
  apply-IsMirrored (Op.nominate_extra candidate extra) (signed who) s b m =
      nominate_extra-IsMirrored cfg who candidate extra s m
  apply-IsMirrored (Op.nominate_less candidate less) (signed who) s b m =
      nominate_less-IsMirrored cfg who candidate less s m
  apply-IsMirrored (Op.nominator_leave_collator candidate) (signed who) s b m =
      nominator_leave_collator-IsMirrored cfg who candidate s m
  apply-IsMirrored (Op.config settings) (signed who) s b m = m
  apply-IsMirrored (Op.config settings) unsigned s b m = m
  apply-IsMirrored (Op.force_onboard candidate) (signed who) s b m = m
  apply-IsMirrored (Op.force_onboard candidate) unsigned s b m = m
  apply-IsMirrored (Op.bond_extra extra) root s b m = m
  apply-IsMirrored (Op.bond_less less) root s b m = m
  apply-IsMirrored (Op.nominate_extra candidate extra) root s b m = m
  apply-IsMirrored (Op.nominate_less candidate less) root s b m = m
  apply-IsMirrored (Op.nominator_leave_collator candidate) root s b m = m
  apply-IsMirrored (Op.bond_extra extra) unsigned s b m = m
  apply-IsMirrored (Op.bond_less less) unsigned s b m = m
  apply-IsMirrored (Op.nominate_extra candidate extra) unsigned s b m = m
  apply-IsMirrored (Op.nominate_less candidate less) unsigned s b m = m
  apply-IsMirrored (Op.nominator_leave_collator candidate) unsigned s b m = m
