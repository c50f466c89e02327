-- ===== src/Crowdloan/Accounts.antt =====
-- Which native account stands for which account of the relay chain (`AssociatedAccount` of
-- pallets/crowdloan-rewards/src/lib.rs).
use polkafoundry.Base.{
  ℕ, ◌≡◌, ◌≢◌, arith, true, none, some, lookup, erase, lookup-insert, lookup-erase, signed, ok,
  Option-cases, inl, inr,
}
use polkafoundry.Crowdloan.{Config, Storage, update_associate_account}

module _ {L Proof : Type 0} (cfg : Config L Proof) where
  -- A signed update that succeeds has a valid signature of the relay account, moves its association
  -- from the old native account to the caller, and leaves all others.
  pub update_associate_account_lem :
      (who native relay : ℕ) (proof : Proof) (s : Storage L)
      → (update_associate_account cfg (signed who) native relay proof s).0 ≡ ok tt
      → let t = (update_associate_account cfg (signed who) native relay proof s).1 in
        (cfg.verify proof who relay ≡ true)
        × (lookup native s.associated_accounts ≡ some relay)
        × (lookup who t.associated_accounts ≡ some relay)
        × (lookup native t.associated_accounts ≡ none)
        × ((k : ℕ)
            → k ≢ who
            → k ≢ native
            → lookup k t.associated_accounts ≡ lookup k s.associated_accounts)
  unfolding update_associate_account
  update_associate_account_lem who native relay proof s h =
      elim (Option-cases (lookup native s.associated_accounts)) [
        | inl e ↦ absurd (ground arith)
        | inr (r, e) ↦
            let m = erase native s.associated_accounts in
            (
              ground arith,
              ground arith,
              ground (arith, lookup-insert who who relay m),
              ground (
                arith,
                lookup-insert who native relay m,
                lookup-erase native native s.associated_accounts,
              ),
              λ k a b.
                  ground (
                    arith,
                    lookup-insert who k relay m,
                    lookup-erase native k s.associated_accounts,
                  ),
            )
      ]
