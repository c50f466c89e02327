-- ===== src/Staking/Departure.antt =====
-- How an exit of the staking pallet ends: the calls and the ends of blocks from the entry in the exit queue
-- until the round in which it is due.
pub mod Due
pub mod Unbond
use polkafoundry.Base.{
  ℕ, suc, ◌∙◌, ◌≡◌, ◌≢◌, refl, ap, arith, ◌+◌, ◌-◌, ◌*◌, ◌<◌, Origin, signed, root, unsigned,
  lookup, lookup-insert, IsDistinct, insert-IsDistinct, List, [], ◌∷◌, Option-cases, inl, inr,
}
use polkafoundry.Staking.Types.{Bond, Leaving}
use polkafoundry.Staking.State.{Config, Storage, withdraw_round}
use polkafoundry.Staking.Calls.{
  config, bond, force_onboard, bond_extra, bond_less, collator_unbond, leave_all, record_nomination,
  nominate, nominate_extra, nominate_less, nominator_leave_collator,
}
use polkafoundry.Staking.RoundEnd.Leave.{clock}
use polkafoundry.Staking.Ops.{Op, apply}

-- A call that does not touch the settings, nor the exit of an account.
abbrev pub LeavesBe : ℕ → Op → Origin → Type 0
LeavesBe k (Op.config settings) o = ⊥
LeavesBe k Op.collator_unbond o = o ≢ signed k
LeavesBe k _ o = Unit

pub record Passed {L : Type 0} (k : ℕ) (s t : Storage L) : Type 0 where
  pub same_round : t.current_round ≡ s.current_round
  pub same_settings : t.settings ≡ s.settings
  pub same_exit : lookup k t.exit_queue ≡ lookup k s.exit_queue
  pub distinct : IsDistinct s.exit_queue → IsDistinct t.exit_queue

module _ {L : Type 0} (cfg : Config L) where
  Passed-of_clock : (k : ℕ) (s t : Storage L) → clock t ≡ clock s → Passed k s t
  Passed-of_clock k s t h = record {
    same_round = ground (arith, h);
    same_settings = ground (arith, h);
    same_exit = ground (arith, h);
    distinct = λ d. ground (arith, h, d);
  }

  pub leave_all-clock : (bs : List Bond) (s : Storage L) → clock (leave_all cfg bs s) ≡ clock s
  unfolding leave_all
  leave_all-clock [] s = refl
  leave_all-clock (b ∷ bs) s = leave_all-clock bs _

  collator_unbond-Passed :
      (who k : ℕ) (s : Storage L) → who ≢ k → Passed k s (collator_unbond cfg (signed who) s).1
  unfolding collator_unbond
  collator_unbond-Passed who k s ne = elim (Option-cases (lookup who s.collators)) [
    | inl e ↦ Passed-of_clock k s _ (ground arith)
    | inr (c, e) ↦
        let exit : Leaving = record {
          remaining = c.active;
          unbonding = c.unbonding;
          when = withdraw_round s;
        } in
        let freed = leave_all-clock c.nominations s in
        record {
          same_round = ground (arith, freed);
          same_settings = ground (arith, freed);
          same_exit = ground (arith, freed, lookup-insert who k exit s.exit_queue);
          distinct = λ d. ground (arith, freed, insert-IsDistinct who exit s.exit_queue d);
        }
  ]

  -- A call that lets the exit of an account be.
  apply-Passed :
      (op : Op) (o : Origin) (k : ℕ) (s : Storage L)
      → LeavesBe k op o
      → Passed k s (apply cfg op o s).1
  unfolding apply config bond force_onboard bond_extra bond_less collator_unbond nominate
      nominate_extra nominate_less nominator_leave_collator record_nomination
  apply-Passed (Op.config settings) o k s b = absurd b
  apply-Passed (Op.bond amount) o k s b = Passed-of_clock k s _ (ground arith)
  apply-Passed (Op.bond_extra extra) o k s b = Passed-of_clock k s _ (ground arith)
  apply-Passed (Op.bond_less less) o k s b = Passed-of_clock k s _ (ground arith)
  apply-Passed (Op.force_onboard candidate) o k s b = Passed-of_clock k s _ (ground arith)
  apply-Passed Op.collator_unbond (signed who) k s b =
      collator_unbond-Passed who k s (λ e. b (ap signed e))
  apply-Passed Op.collator_unbond root k s b = Passed-of_clock k s s refl
  apply-Passed Op.collator_unbond unsigned k s b = Passed-of_clock k s s refl
  apply-Passed (Op.nominate candidate amount) o k s b = Passed-of_clock k s _ (ground arith)
  apply-Passed (Op.nominate_extra candidate extra) o k s b = Passed-of_clock k s _ (ground arith)
  apply-Passed (Op.nominate_less candidate less) o k s b = Passed-of_clock k s _ (ground arith)
  apply-Passed (Op.nominator_leave_collator candidate) o k s b =
      Passed-of_clock k s _ (ground arith)

  -- The calls of a block, one after another.
  unfoldable pub apply_all : List (Op × Origin) → Storage L → Storage L
  apply_all [] s = s
  apply_all ((op, o) ∷ calls) s = apply_all calls (apply cfg op o s).1

  abbrev pub AllLeaveBe : ℕ → List (Op × Origin) → Type 0
  AllLeaveBe k [] = Unit
  AllLeaveBe k ((op, o) ∷ calls) = LeavesBe k op o × AllLeaveBe k calls

  Passed-trans : (k : ℕ) (s t v : Storage L) → Passed k s t → Passed k t v → Passed k s v
  Passed-trans k s t v p q = record {
    same_round = q.same_round ∙ p.same_round;
    same_settings = q.same_settings ∙ p.same_settings;
    same_exit = q.same_exit ∙ p.same_exit;
    distinct = λ d. q.distinct (p.distinct d);
  }

  pub apply_all-Passed :
      (k : ℕ) (calls : List (Op × Origin)) (s : Storage L)
      → AllLeaveBe k calls
      → Passed k s (apply_all calls s)
  unfolding apply_all
  apply_all-Passed k [] s b = Passed-of_clock k s s refl
  apply_all-Passed k ((op, o) ∷ calls) s b =
      Passed-trans k s (apply cfg op o s).1 _ (apply-Passed op o k s b.0)
        (apply_all-Passed k calls (apply cfg op o s).1 b.1)

pub rounds_left : (w a len : ℕ) → a < w → (w - a) * len ≡ len + (w - (a + 1)) * len
rounds_left w a len h = ap (λ n. n * len) one_more ∙ suc_mul (w - (a + 1))
  where
    one_more : w - a ≡ suc (w - (a + 1))
    one_more = omega arith

    suc_mul : (n : ℕ) → suc n * len ≡ len + n * len
    suc_mul n = grind arith
