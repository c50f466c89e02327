-- ===== src/Staking/Round.antt =====
-- `RoundInfo` of pallets/polkafoundry-staking/src/lib.rs: when a round ends and what comes next.
use polkafoundry.Base.{
  ℕ, ◌+◌, ◌≤◌, ◌<◌, ◌≡◌, ◌↔◌, Bool, true, arith, leb, u32_mod, add_u32, sub_u32,
}

pub record RoundInfo : Type 0 where
  pub index : ℕ
  pub start_in : ℕ
  pub length : ℕ

-- `RoundInfo::new`
unfoldable pub new_round : ℕ → ℕ → ℕ → RoundInfo
new_round i s l = record { index = i; start_in = s; length = l }

unfoldable pub next_round_index : RoundInfo → ℕ
next_round_index r = add_u32 r.index 1

unfoldable pub update : ℕ → ℕ → RoundInfo → RoundInfo
update now len r = record { index = add_u32 r.index 1; start_in = now; length = len }

unfoldable pub should_goto_next_round : ℕ → RoundInfo → Bool
should_goto_next_round now r = leb r.length (sub_u32 now r.start_in)

unfoldable pub next_election_prediction : RoundInfo → ℕ
next_election_prediction r = add_u32 r.start_in r.length

-- At a block that is not before the round's start, the round is over exactly when the predicted
-- election block has been reached. (Block numbers are below 2 ^ 32, the predicted one included.)
pub should_goto_next_round-next_election_prediction :
    (now : ℕ) (r : RoundInfo)
    → r.start_in ≤ now
    → now < u32_mod
    → r.start_in + r.length < u32_mod
    → (should_goto_next_round now r ≡ true) ↔ (next_election_prediction r ≤ now)
unfolding should_goto_next_round next_election_prediction add_u32 sub_u32
should_goto_next_round-next_election_prediction now r h k l = (λ t. ground arith, λ t. ground arith)

-- After `update` at a block the new round is not over before `len` more blocks have passed, and is
-- over from then on; its index is the announced one.
pub update-should_goto_next_round :
    (now len later : ℕ) (r : RoundInfo)
    → now ≤ later
    → later < u32_mod
    → ((should_goto_next_round later (update now len r) ≡ true) ↔ (now + len ≤ later))
      × ((update now len r).index ≡ next_round_index r)
unfolding should_goto_next_round update next_round_index sub_u32
update-should_goto_next_round now len later r h k =
    ((λ t. ground arith, λ t. ground arith), ground arith)
