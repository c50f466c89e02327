-- ===== src/Staking/Bonds.antt =====
-- The loops of pallets/polkafoundry-staking/src/lib.rs over a list of bonds or of unbonding chunks,
-- which the ledgers of collators and of nominators share.
pub mod Chunks
pub mod Stakes
pub mod Lookup
use polkafoundry.Base.{
  ℕ, Option, none, some, List, [], ◌∷◌, ltb, ◌==◌, if◌then◌else◌, add_u128, sub_u128,
}
use polkafoundry.Staking.Types.{Bond, UnBondChunk}

-- The `filter` of `consolidate_unbonded`, of collators and of nominators: `total` shrinks by each
-- chunk that is dropped.
unfoldable pub release : ℕ → ℕ → List UnBondChunk → ℕ × List UnBondChunk
release current_round total [] = (total, [])
release current_round total (c ∷ cs) =
    let later = ltb current_round c.round in
    let (left, kept) = release current_round (if later then total else sub_u128 total c.value) cs in
    (left, if later then c ∷ kept else kept)

-- The loop of `nominate_extra`: the first bond of the owner grows, and its new amount is returned.
unfoldable pub grow_bond : Bond → List Bond → List Bond × Option ℕ
grow_bond extra [] = ([], none)
grow_bond extra (b ∷ bs) =
    let amount = add_u128 b.amount extra.amount in
    let (rest, r) = grow_bond extra bs in
    if b.owner == extra.owner
    then (record b { amount = amount } ∷ bs, some amount)
    else (b ∷ rest, r)

-- The loop of `nominate_less`: the first bond of the owner shrinks, or is too small.
unfoldable pub shrink_bond : Bond → List Bond → List Bond × Option (Option ℕ)
shrink_bond less [] = ([], none)
shrink_bond less (b ∷ bs) =
    let amount = sub_u128 b.amount less.amount in
    let (rest, r) = shrink_bond less bs in
    if b.owner == less.owner
    then (if ltb less.amount b.amount
        then (record b { amount = amount } ∷ bs, some (some amount))
        else (b ∷ bs, some none))
    else (b ∷ rest, r)

-- The `filter_map` of `rm_nomination`: the bonds of other owners, and the amount of the last bond
-- that was dropped.
unfoldable pub drop_bonds : ℕ → Option ℕ → List Bond → List Bond × Option ℕ
drop_bonds owner less [] = ([], less)
drop_bonds owner less (b ∷ bs) =
    let hit = b.owner == owner in
    let (rest, r) = drop_bonds owner (if hit then some b.amount else less) bs in
    (if hit then rest else b ∷ rest, r)
