-- ===== src/Treasury/Flow.antt =====
-- What a donation and an allocation do to the pot, and what they report.
use polkafoundry.Base.{
  ℕ, ◌+◌, ◌-◌, ◌≤◌, ◌≡◌, ◌≢◌, arith, push, Origin, root, signed, unsigned, Failure, ok, err,
  Option-cases, inl, inr,
}
use polkafoundry.Currency.{LeftOver, TransferMoves}
use polkafoundry.Treasury.{
  Error, donation_received, funds_allocated, Config, Storage, pot, donate, allocate,
}

module _ {L : Type 0} (cfg : Config L) where
  -- Either call is atomic: a failure leaves the balances and the events as they were.
  pub donate-atomic :
      (o : Origin) (amount : ℕ) (s : Storage L) (e : Failure Error)
      → (donate cfg o amount s).0 ≡ err e
      → (donate cfg o amount s).1 ≡ s
  unfolding donate
  donate-atomic o amount s e h = ground arith

  pub allocate-atomic :
      (o : Origin) (dest amount : ℕ) (s : Storage L) (e : Failure Error)
      → (allocate cfg o dest amount s).0 ≡ err e
      → (allocate cfg o dest amount s).1 ≡ s
  unfolding allocate
  allocate-atomic o dest amount s e h = ground arith

module _ {L : Type 0} (cfg : Config L) (law : TransferMoves cfg.currency) where
  -- With at least the minimum balance on the treasury's account, a donation that succeeds, by
  -- another account, takes the amount from the donor, the pot grows by exactly the amount, and the
  -- event reports the pot after it. (Transfers move what they are documented to move.)
  pub donate_lem :
      (who amount : ℕ) (s : Storage L)
      → who ≢ cfg.account_id
      → cfg.currency.minimum_balance ≤ cfg.currency.free_balance cfg.account_id s.balances
      → (donate cfg (signed who) amount s).0 ≡ ok tt
      → let t = (donate cfg (signed who) amount s).1 in
        (pot cfg t ≡ pot cfg s + amount)
        × LeftOver cfg.currency.minimum_balance
            (cfg.currency.free_balance who s.balances - amount)
            (cfg.currency.free_balance who t.balances)
        × (t.events ≡ push s.events (donation_received who amount (pot cfg t)))
  unfolding donate pot
  donate_lem who amount s ne floor h =
      elim (Option-cases (cfg.currency.transfer who cfg.account_id amount s.balances)) [
        | inl e ↦ ground arith
        | inr (l, e) ↦ ground (arith, law.moves who cfg.account_id amount s.balances l e ne)
      ]

  -- An allocation that succeeds, to an account other than the treasury's, was made by the root
  -- origin, and is at least the minimum balance; the account gets exactly the amount, of which the treasury
  -- has as much. The treasury keeps the rest, or nothing if the rest is below the minimum balance. The
  -- event reports the pot after it. (Transfers move what they are documented to move.)
  pub allocate_lem :
      (o : Origin) (dest amount : ℕ) (s : Storage L)
      → cfg.account_id ≢ dest
      → (allocate cfg o dest amount s).0 ≡ ok tt
      → let t = (allocate cfg o dest amount s).1 in
        (o ≡ root)
        × (cfg.currency.minimum_balance ≤ amount)
        × (amount ≤ cfg.currency.free_balance cfg.account_id s.balances)
        × LeftOver cfg.currency.minimum_balance
            (cfg.currency.free_balance cfg.account_id s.balances - amount)
            (cfg.currency.free_balance cfg.account_id t.balances)
        × (cfg.currency.free_balance dest t.balances
            ≡ cfg.currency.free_balance dest s.balances + amount)
        × (t.events ≡ push s.events (funds_allocated dest amount (pot cfg t)))
  unfolding allocate pot
  allocate_lem root dest amount s ne h =
      elim (Option-cases (cfg.currency.transfer cfg.account_id dest amount s.balances)) [
        | inl e ↦ ground arith
        | inr (l, e) ↦ ground (arith, law.moves cfg.account_id dest amount s.balances l e ne)
      ]
  allocate_lem (signed w) dest amount s ne h = ground arith
  allocate_lem unsigned dest amount s ne h = ground arith
