-- ===== src/Staking/Announced.antt =====
-- The total stake and the events of the calls of pallets/polkafoundry-staking/src/lib.rs.
use mathlib.Core.List.{append_assoc, append-nil}
use polkafoundry.Base.{
  ℕ, ◌≡◌, ◌∙◌, refl, sym, ap, arith, List, [], ◌∷◌, ◌++◌, push, Origin, Result, Failure, add_u128,
  signed, root, unsigned, Option-cases, inl, inr, lookup, ok, err,
}
use polkafoundry.Staking.Types.{Bond, Error, Event}
use polkafoundry.Staking.State.{Config, Storage, withdraw_round}
use polkafoundry.Staking.Calls.{
  config, bond, force_onboard, bond_extra, bond_less, collator_unbond, record_nomination, nominate,
  nominate_extra, nominate_less, nominator_leave_collator, leave_all,
}
use polkafoundry.Staking.Ops.{Op, apply}

-- The total stake after an event, from the one before it.
abbrev pub raised : Event → ℕ → ℕ
raised (Event.bonded who amount) total = add_u128 total amount
raised (Event.bond_extra who extra) total = add_u128 total extra
raised (Event.nominate candidate amount) total = add_u128 total amount
raised (Event.nominate_extra candidate extra) total = add_u128 total extra
raised _ total = total

abbrev pub raised_all : List Event → ℕ → ℕ
raised_all [] total = total
raised_all (e ∷ es) total = raised_all es (raised e total)

-- The event of a call that succeeds.
abbrev pub told : {L : Type 0} → Op → ℕ → Storage L → Event
told (Op.config settings) who s = Event.setting_changed settings
told (Op.bond amount) who s = Event.bonded who amount
told (Op.bond_extra extra) who s = Event.bond_extra who extra
told (Op.bond_less less) who s = Event.bond_less who less
told (Op.force_onboard candidate) who s = Event.candidate_onboard candidate
told Op.collator_unbond who s = Event.candidate_leaving who (withdraw_round s)
told (Op.nominate candidate amount) who s = Event.nominate candidate amount
told (Op.nominate_extra candidate extra) who s = Event.nominate_extra candidate extra
told (Op.nominate_less candidate less) who s = Event.nominate_less candidate less
told (Op.nominator_leave_collator candidate) who s = Event.nominator_leave_collator who candidate

abbrev pub told_if :
    {L : Type 0} → Result (Failure Error) (Unit {0}) × Storage L → Event → List Event
told_if (ok _, _) e = e ∷ []
told_if (err _, _) e = []

-- The account that signed, or any.
abbrev pub signer : Origin → ℕ
signer (signed who) = who
signer _ = 0

-- Calls one after another, whether they fail or not, and the events of those that succeed.
abbrev pub apply_all : {L : Type 0} → Config L → List (Op × Origin) → Storage L → Storage L
apply_all cfg [] s = s
apply_all cfg ((op, o) ∷ calls) s = apply_all cfg calls (apply cfg op o s).1

abbrev pub told_all : {L : Type 0} → Config L → List (Op × Origin) → Storage L → List Event
told_all cfg [] s = []
told_all cfg ((op, o) ∷ calls) s =
    told_if (apply cfg op o s) (told op (signer o) s) ++ told_all cfg calls (apply cfg op o s).1

module _ {L : Type 0} (cfg : Config L) where
  -- A call tells by its one event what it does to the total stake.
  abbrev Tells : Storage L → Event → Result (Failure Error) (Unit {0}) × Storage L → Type 0
  Tells s e (ok _, t) = (t.events ≡ push s.events e) × (t.total_staked ≡ raised e s.total_staked)
  Tells s e (err _, t) = (t.events ≡ s.events) × (t.total_staked ≡ s.total_staked)

  leave_all-total :
      (bs : List Bond) (s : Storage L)
      → ((leave_all cfg bs s).events ≡ s.events)
        × ((leave_all cfg bs s).total_staked ≡ s.total_staked)
  unfolding leave_all
  leave_all-total [] s = (refl, refl)
  leave_all-total (b ∷ bs) s =
      leave_all-total bs
        (record s { balances = (cfg.currency.unreserve b.owner b.amount s.balances).1 })

  collator_unbond-Tells :
      (who : ℕ) (s : Storage L)
      → Tells s (told Op.collator_unbond who s) (collator_unbond cfg (signed who) s)
  unfolding collator_unbond
  collator_unbond-Tells who s = elim (Option-cases (lookup who s.collators)) [
    | inl e ↦ ground arith
    | inr (c, e) ↦ let freed = leave_all-total c.nominations s in ground (arith, freed)
  ]

  apply-Tells :
      (op : Op) (o : Origin) (s : Storage L) → Tells s (told op (signer o) s) (apply cfg op o s)
  unfolding apply config bond force_onboard bond_extra bond_less collator_unbond nominate
      nominate_extra nominate_less nominator_leave_collator record_nomination
  apply-Tells (Op.config settings) o s = ground arith
  apply-Tells (Op.bond amount) o s = ground arith
  apply-Tells (Op.bond_extra extra) o s = ground arith
  apply-Tells (Op.bond_less less) o s = ground arith
  apply-Tells (Op.force_onboard candidate) o s = ground arith
  apply-Tells Op.collator_unbond (signed who) s = collator_unbond-Tells who s
  apply-Tells Op.collator_unbond root s = (refl, refl)
  apply-Tells Op.collator_unbond unsigned s = (refl, refl)
  apply-Tells (Op.nominate candidate amount) o s = ground arith
  apply-Tells (Op.nominate_extra candidate extra) o s = ground arith
  apply-Tells (Op.nominate_less candidate less) o s = ground arith
  apply-Tells (Op.nominator_leave_collator candidate) o s = ground arith

  join_told :
      (s : Storage L) (e : Event) (p : Result (Failure Error) (Unit {0}) × Storage L)
      (es : List Event) (total : ℕ) (events : List Event)
      → Tells s e p
      → (events ≡ p.1.events ++ es) × (total ≡ raised_all es p.1.total_staked)
      → (events ≡ s.events ++ (told_if p e ++ es))
        × (total ≡ raised_all (told_if p e ++ es) s.total_staked)
  join_told s e (ok _, t) es total events (told, raises) (more, raise) = (
    more ∙ ap (λ r. r ++ es) told ∙ append_assoc s.events (e ∷ []) es,
    raise ∙ ap (raised_all es) raises,
  )
  join_told s e (err _, t) es total events (told, raises) (more, raise) =
      (more ∙ ap (λ r. r ++ es) told, raise ∙ ap (raised_all es) raises)

  -- Whatever calls are made, by whatever origins, those that succeed deposit one event each, which says what
  -- was called, and those that fail deposit none; and the total stake is the one before with the amounts of
  -- the events of `bond`, `bond_extra`, `nominate` and `nominate_extra` added one after another (wrapping
  -- around at 2 ^ 128): no other call and no failing one changes it.
  pub apply-total_staked :
      (calls : List (Op × Origin)) (s : Storage L)
      → let t = apply_all cfg calls s in
        let events = told_all cfg calls s in
        (t.events ≡ s.events ++ events) × (t.total_staked ≡ raised_all events s.total_staked)
  apply-total_staked [] s = (sym (append-nil s.events), refl)
  apply-total_staked ((op, o) ∷ calls) s =
      let p = apply cfg op o s in
      join_told s (told op (signer o) s) p (told_all cfg calls p.1) _ _ (apply-Tells op o s)
        (apply-total_staked calls p.1)
