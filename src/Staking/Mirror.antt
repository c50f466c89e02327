-- ===== src/Staking/Mirror.antt =====
-- A nomination is recorded twice by pallets/polkafoundry-staking/src/lib.rs, in the nominator's
-- ledger under the collator and in the collator's ledger under the nominator: the calls that change
-- a nomination.
pub mod Every
use mathlib.Core.Path.{subst, subst₂}
use polkafoundry.Base.{
  ℕ, ◌≡◌, ◌≢◌, arith, false, Option, none, some, Map, lookup, insert, lookup-insert, ◌==◌, eq_of_==,
  sym, ap, ◌∙◌, signed, Option-cases, inl, inr, Bool-cases,
}
use polkafoundry.Staking.Bonds.Stakes.{
  stake_of, grow_bond-stake, shrink_bond-stake, drop_bonds-stake,
}
use polkafoundry.Staking.Collator
use polkafoundry.Staking.Collator.{StakingCollators}
use polkafoundry.Staking.Nominator
use polkafoundry.Staking.Nominator.{StakingNominators}
use polkafoundry.Staking.State.{Config, Storage, withdraw_round}
use polkafoundry.Staking.Calls.{nominate_extra, nominate_less, nominator_leave_collator, bond_of}

-- Two ledgers agree on the nomination of `who` for `candidate`.
abbrev pub Agree : ℕ → ℕ → Option StakingNominators → Option StakingCollators → Type 0
Agree who candidate (some n) (some c) =
    stake_of candidate n.nominations ≡ stake_of who c.nominations
Agree who candidate _ _ = Unit

abbrev pub IsMirrored : {L : Type 0} → Storage L → Type 0
IsMirrored s =
    (who candidate : ℕ)
    → Agree who candidate (lookup who s.nominators) (lookup candidate s.collators)

-- New ledgers of one nominator and one collator, whose other nominations are as before.
record Rewrites (who candidate : ℕ) (n n' : StakingNominators) (c c' : StakingCollators)
    : Type 0 where
  other_candidates :
      (k : ℕ) → (candidate == k) ≡ false → stake_of k n'.nominations ≡ stake_of k n.nominations
  other_nominators :
      (w : ℕ) → (who == w) ≡ false → stake_of w c'.nominations ≡ stake_of w c.nominations
  same : stake_of candidate n'.nominations ≡ stake_of who c'.nominations

Agree-of_eq :
    (w k : ℕ) (n n' : StakingNominators) (o : Option StakingCollators)
    → stake_of k n'.nominations ≡ stake_of k n.nominations
    → Agree w k (some n) o
    → Agree w k (some n') o
Agree-of_eq w k n n' none e a = tt
Agree-of_eq w k n n' (some c) e a = e ∙ a

Agree-of_eq' :
    (w k : ℕ) (o : Option StakingNominators) (c c' : StakingCollators)
    → stake_of w c'.nominations ≡ stake_of w c.nominations
    → Agree w k o (some c)
    → Agree w k o (some c')
Agree-of_eq' w k none c c' e a = tt
Agree-of_eq' w k (some n) c c' e a = a ∙ sym e

write-Agree :
    (who candidate : ℕ) (n n' : StakingNominators) (c c' : StakingCollators)
    (ns : Map StakingNominators) (cs : Map StakingCollators)
    → ((w k : ℕ) → Agree w k (lookup w ns) (lookup k cs))
    → lookup who ns ≡ some n
    → lookup candidate cs ≡ some c
    → Rewrites who candidate n n' c c'
    → (w k : ℕ) → Agree w k (lookup w (insert who n' ns)) (lookup k (insert candidate c' cs))
write-Agree who candidate n n' c c' ns cs m en ec v w k =
    rw (lookup-insert who w n' ns, lookup-insert candidate k c' cs)
      (elim (Bool-cases (who == w)) [
        | inl t ↦ elim (Bool-cases (candidate == k)) [
          | inl q ↦
              let ew = eq_of_== who w t in
              let ek = eq_of_== candidate k q in
              rw (t, q)
                (subst₂ (λ a b. stake_of b n'.nominations ≡ stake_of a c'.nominations) ew ek v.same)
          | inr q ↦
              let old : Agree w k (some n) (lookup k cs) =
                subst (λ o. Agree w k o (lookup k cs))
                  (ap (λ a. lookup a ns) (sym (eq_of_== who w t)) ∙ en) (m w k) in
              rw (t, q) (Agree-of_eq w k n n' (lookup k cs) (v.other_candidates k q) old)
        ]
        | inr t ↦ elim (Bool-cases (candidate == k)) [
          | inl q ↦
              let old : Agree w k (lookup w ns) (some c) =
                subst (Agree w k (lookup w ns))
                  (ap (λ a. lookup a cs) (sym (eq_of_== candidate k q)) ∙ ec) (m w k) in
              rw (t, q) (Agree-of_eq' w k (lookup w ns) c c' (v.other_nominators w t) old)
          | inr q ↦ rw (t, q) (m w k)
        ]
      ])

nominate_extra-Rewrites :
    (who candidate amount : ℕ) (n : StakingNominators) (c : StakingCollators)
    → stake_of candidate n.nominations ≡ stake_of who c.nominations
    → Rewrites who candidate n
        (Nominator.nominate_extra (bond_of candidate amount) n).0
        c
        (Collator.nominate_extra (bond_of who amount) c).0
unfolding Nominator.nominate_extra Collator.nominate_extra
nominate_extra-Rewrites who candidate amount n c e = record {
  other_candidates =
      λ k q. ground (arith, grow_bond-stake (bond_of candidate amount) n.nominations k);
  other_nominators = λ w q. ground (arith, grow_bond-stake (bond_of who amount) c.nominations w);
  same = ground (
    arith,
    grow_bond-stake (bond_of candidate amount) n.nominations candidate,
    grow_bond-stake (bond_of who amount) c.nominations who,
  );
}

nominate_less-Rewrites :
    (who candidate amount when : ℕ) (n : StakingNominators) (c : StakingCollators)
    → stake_of candidate n.nominations ≡ stake_of who c.nominations
    → Rewrites who candidate n
        (Nominator.nominate_less (bond_of candidate amount) when n).0
        c
        (Collator.nominate_less (bond_of who amount) c).0
unfolding Nominator.nominate_less Collator.nominate_less
nominate_less-Rewrites who candidate amount when n c e = record {
  other_candidates =
      λ k q. ground (arith, shrink_bond-stake (bond_of candidate amount) n.nominations k);
  other_nominators = λ w q. ground (arith, shrink_bond-stake (bond_of who amount) c.nominations w);
  same = ground (
    arith,
    shrink_bond-stake (bond_of candidate amount) n.nominations candidate,
    shrink_bond-stake (bond_of who amount) c.nominations who,
  );
}

rm_nomination-Rewrites :
    (who candidate when : ℕ) (n : StakingNominators) (c : StakingCollators)
    → (Nominator.rm_nomination candidate when n).1 ≢ none
    → (Collator.rm_nomination who c).1 ≢ none
    → Rewrites who candidate n
        (Nominator.rm_nomination candidate when n).0
        c
        (Collator.rm_nomination who c).0
unfolding Nominator.rm_nomination Collator.rm_nomination
rm_nomination-Rewrites who candidate when n c hn hc = record {
  other_candidates = λ k q. ground (arith, drop_bonds-stake candidate none n.nominations k);
  other_nominators = λ w q. ground (arith, drop_bonds-stake who none c.nominations w);
  same = ground (
    arith,
    drop_bonds-stake candidate none n.nominations candidate,
    drop_bonds-stake who none c.nominations who,
  );
}

module _ {L : Type 0} (cfg : Config L) where
  -- `nominate_extra` keeps the two records of every nomination equal, whether it succeeds or fails.
  pub nominate_extra-IsMirrored :
      (who candidate extra : ℕ) (s : Storage L)
      → IsMirrored s
      → IsMirrored (nominate_extra cfg (signed who) candidate extra s).1
  unfolding nominate_extra
  nominate_extra-IsMirrored who candidate extra s m w k =
      elim (Option-cases (lookup candidate s.collators)) [
        | inl e ↦ ground (arith, m w k)
        | inr (c, ec) ↦ elim (Option-cases (lookup who s.nominators)) [
          | inl e ↦ ground (arith, m w k)
          | inr (n, en) ↦
              let n' = (Nominator.nominate_extra (bond_of candidate extra) n).0 in
              let c' = (Collator.nominate_extra (bond_of who extra) c).0 in
              let agree : Agree who candidate (some n) (some c) =
                subst₂ (Agree who candidate) en ec (m who candidate) in
              ground (
                arith,
                m w k,
                write-Agree who candidate n n' c c' s.nominators s.collators m en ec
                    (nominate_extra-Rewrites who candidate extra n c agree) w k,
              )
        ]
      ]

  -- `nominate_less` keeps the two records of every nomination equal, whether it succeeds or fails.
  pub nominate_less-IsMirrored :
      (who candidate less : ℕ) (s : Storage L)
      → IsMirrored s
      → IsMirrored (nominate_less cfg (signed who) candidate less s).1
  unfolding nominate_less
  nominate_less-IsMirrored who candidate less s m w k =
      elim (Option-cases (lookup candidate s.collators)) [
        | inl e ↦ ground (arith, m w k)
        | inr (c, ec) ↦ elim (Option-cases (lookup who s.nominators)) [
          | inl e ↦ ground (arith, m w k)
          | inr (n, en) ↦
              let n' = (Nominator.nominate_less (bond_of candidate less) (withdraw_round s) n).0 in
              let c' = (Collator.nominate_less (bond_of who less) c).0 in
              let agree : Agree who candidate (some n) (some c) =
                subst₂ (Agree who candidate) en ec (m who candidate) in
              ground (
                arith,
                m w k,
                write-Agree who candidate n n' c c' s.nominators s.collators m en ec
                    (nominate_less-Rewrites who candidate less (withdraw_round s) n c agree) w k,
              )
        ]
      ]

  rm_nomination_write :
      (who candidate : ℕ) (n : StakingNominators) (c : StakingCollators) (s : Storage L)
      → IsMirrored s
      → lookup who s.nominators ≡ some n
      → lookup candidate s.collators ≡ some c
      → (w k : ℕ) → (Nominator.rm_nomination candidate (withdraw_round s) n).1 ≢ none
      → (Collator.rm_nomination who c).1 ≢ none
      → Agree w k
          (lookup w
            (insert who (Nominator.rm_nomination candidate (withdraw_round s) n).0 s.nominators))
          (lookup k (insert candidate (Collator.rm_nomination who c).0 s.collators))
  rm_nomination_write who candidate n c s m en ec w k hn hc =
      write-Agree who candidate n _ c _ s.nominators s.collators m en ec
        (rm_nomination-Rewrites who candidate (withdraw_round s) n c hn hc) w k

  -- `nominator_leave_collator` keeps the two records of every nomination equal, whether it
  -- succeeds or fails.
  pub nominator_leave_collator-IsMirrored :
      (who candidate : ℕ) (s : Storage L)
      → IsMirrored s
      → IsMirrored (nominator_leave_collator cfg (signed who) candidate s).1
  unfolding nominator_leave_collator
  nominator_leave_collator-IsMirrored who candidate s m w k =
      elim (Option-cases (lookup candidate s.collators)) [
        | inl e ↦ ground (arith, m w k)
        | inr (c, ec) ↦ elim (Option-cases (lookup who s.nominators)) [
          | inl e ↦ ground (arith, m w k)
          | inr (n, en) ↦ ground (arith, m w k, rm_nomination_write who candidate n c s m en ec w k)
        ]
      ]
