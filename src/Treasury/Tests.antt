-- ===== src/Treasury/Tests.antt =====
-- A donation and an allocation, over balances of 1000 for every account.
use polkafoundry.Base.{◌+◌, ◌-◌, ◌∷◌, ◌≤◌, ◌≡◌, refl, arith, [], Origin, root, signed, ok}
use polkafoundry.Samples.{Balances, sample_currency, sample_TransferMoves}
use polkafoundry.Currency.{LeftOver}
use polkafoundry.Treasury.{funds_allocated, Config, Storage, pot, donate, allocate}
use polkafoundry.Treasury.Flow.{allocate_lem}

abbrev cfg : Config Balances
cfg = record { currency = sample_currency; account_id = 100 }

abbrev start : Storage Balances
start = record { balances = record { free = λ a. 1000; reserved = λ a. 0 }; events = [] }

donated : (donate cfg (signed 1) 300 start).0 ≡ ok tt
unfolding donate
donated = refl

allocated : (allocate cfg root 2 300 start).0 ≡ ok tt
unfolding allocate
allocated = refl

allocate_lem_example :
    let t = (allocate cfg root 2 300 start).1 in
    (Origin.root ≡ root)
    × (10 ≤ 300)
    × (300 ≤ 1000)
    × LeftOver 10 (1000 - 300) (t.balances.free 100)
    × (t.balances.free 2 ≡ 1000 + 300)
    × (t.events ≡ funds_allocated 2 300 690 ∷ [])
unfolding allocate pot
allocate_lem_example =
    allocate_lem cfg sample_TransferMoves root 2 300 start (omega arith) allocated
