-- ===== src/Staking/Updates/Exits.antt =====
-- The exit queue and the recorded total stake under `execute_exit_queue` of pallets/polkafoundry-
-- staking/src/lib.rs.
use polkafoundry.Base.{
  ℕ, ◌≡◌, refl, arith, false, Option, none, some, List, [], ◌∷◌, Map, lookup, lookup-insert,
  lookup-erase, IsDistinct, push, filter, ltb, sub_u128, if◌then◌else◌, ◌==◌,
}
use polkafoundry.Staking.Types.{Leaving, UnBondChunk}
use polkafoundry.Staking.State.{Config, Storage}
use polkafoundry.Staking.Updates.{
  pay_out, pay_due, keep_later, pay_all, execute_exit, execute_each_exit, execute_exit_queue,
}

-- The chunks of a round after `r`.
abbrev pub later : ℕ → List UnBondChunk → List UnBondChunk
later r = filter (λ (c : UnBondChunk). ltb r c.round)

-- What a round leaves of an exit: nothing once it is due, and else the chunks that are not due.
abbrev pub left_of : ℕ → Leaving → Option Leaving
left_of r e = if ltb r e.when then some (record e { unbonding = later r e.unbonding }) else none

-- What one key reads after the loop over the exits `es`.
abbrev pub over_exits : ℕ → Option Leaving → Option Leaving → Option Leaving
over_exits r none old = old
over_exits r (some e) old = left_of r e

keep_later-later : (r : ℕ) (cs : List UnBondChunk) → keep_later r cs ≡ later r cs
unfolding keep_later
keep_later-later r [] = refl
keep_later-later r (c ∷ cs) = ground (arith, keep_later-later r cs)

module _ {L : Type 0} (cfg : Config L) (r : ℕ) where
  pub pay_due-exit_queue :
      (acc staked : ℕ) (cs : List UnBondChunk) (s : Storage L)
      → (pay_due cfg r acc staked cs s).exit_queue ≡ s.exit_queue
  unfolding pay_due pay_out
  pay_due-exit_queue acc staked [] s = refl
  pay_due-exit_queue acc staked (c ∷ cs) s = ground (
    arith,
    pay_due-exit_queue acc staked cs
        (if ltb r c.round then s else pay_out cfg r acc staked c.value s),
  )

  pub pay_all-exit_queue :
      (acc staked : ℕ) (cs : List UnBondChunk) (s : Storage L)
      → (pay_all cfg r acc staked cs s).exit_queue ≡ s.exit_queue
  unfolding pay_all
  pay_all-exit_queue acc staked [] s = refl
  pay_all-exit_queue acc staked (c ∷ cs) s = pay_all-exit_queue acc staked cs _

  execute_exit-exit_queue :
      (acc : ℕ) (e : Leaving) (s : Storage L) (k : ℕ)
      → lookup k (execute_exit cfg r acc e s).exit_queue
        ≡ (if acc == k then left_of r e else lookup k s.exit_queue)
  unfolding execute_exit pay_out
  execute_exit-exit_queue acc e s k = ground (
    arith,
    pay_due-exit_queue acc s.total_staked e.unbonding s,
    pay_all-exit_queue acc s.total_staked e.unbonding
        (pay_out cfg r acc s.total_staked e.remaining s),
    lookup-insert acc k (record e { unbonding = keep_later r e.unbonding }) s.exit_queue,
    lookup-erase acc k s.exit_queue,
    keep_later-later r e.unbonding,
  )

  execute_each_exit-exit_queue :
      (es : Map Leaving) (s : Storage L) (k : ℕ)
      → IsDistinct es
      → lookup k (execute_each_exit cfg r es s).exit_queue
        ≡ over_exits r (lookup k es) (lookup k s.exit_queue)
  unfolding execute_each_exit
  execute_each_exit-exit_queue [] s k d = refl
  execute_each_exit-exit_queue ((j, e) ∷ es) s k d = ground (
    arith,
    execute_each_exit-exit_queue es (execute_exit cfg r j e s) k d.1,
    execute_exit-exit_queue j e s k,
  )

  -- After `execute_exit_queue` an account is in the queue exactly if its exit was there and is not
  -- due, with its chunks of later rounds in their order and nothing else changed. (No account has two entries in the queue.)
  pub lookup-execute_exit_queue :
      (s : Storage L) (k : ℕ)
      → IsDistinct s.exit_queue
      → lookup k (execute_exit_queue cfg r s).exit_queue
        ≡ (elim (lookup k s.exit_queue) [ none ↦ none | some e ↦ left_of r e ])
  unfolding execute_exit_queue
  lookup-execute_exit_queue s k d = ground (arith, execute_each_exit-exit_queue s.exit_queue s k d)

  pay_all_last :
      (acc staked : ℕ) (cs : List UnBondChunk) (c : UnBondChunk) (s : Storage L)
      → (pay_all cfg r acc staked (push cs c) s).total_staked ≡ sub_u128 staked c.value
  unfolding pay_all pay_out
  pay_all_last acc staked [] c s = refl
  pay_all_last acc staked (d ∷ cs) c s = pay_all_last acc staked cs c _

  -- An exit that is due and still has unbonding chunks lowers the recorded total stake by its last
  -- chunk only, whatever its remaining bond and its other chunks are.
  pub execute_exit_forgets :
      (acc : ℕ) (e : Leaving) (cs : List UnBondChunk) (c : UnBondChunk) (s : Storage L)
      → e.unbonding ≡ push cs c
      → ltb r e.when ≡ false
      → (execute_exit cfg r acc e s).total_staked ≡ sub_u128 s.total_staked c.value
  unfolding execute_exit
  execute_exit_forgets acc e cs c s h t =
      rw (t, h)
        (pay_all_last acc s.total_staked cs c (pay_out cfg r acc s.total_staked e.remaining s))
