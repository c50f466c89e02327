-- ===== src/Node/Tests/Launches.antt =====
-- The start of a node with libraries that write lines.
use polkafoundry.Base.{◌≡◌, refl, true, [], ◌∷◌, ok, err}
use polkafoundry.Node.ChainSpec.{Runtime}
use polkafoundry.Node.Partial.{library, new_partial}
use polkafoundry.Node.Run.{Sealing}
use polkafoundry.Node.Launch.{
  Launcher, Launched, failed, network, offchain_workers, authorship, tasks, filter_maintenance,
  transaction_maintenance, collator, network_started, start_node_impl, start_dev_impl,
}
use polkafoundry.Node.Launch.Emits.{Done}
use polkafoundry.Node.Launch.Parts.{whole_node, whole_dev}
use polkafoundry.Node.Launch.Order.{start_node_impl-start_dev_impl}
use polkafoundry.Node.Tests.{all_features, configuration}
use polkafoundry.Node.Tests.Commands.{Lines, builders}

-- A relay chain whose node cannot be built.
abbrev launcher : Launcher Lines
launcher = record {
  prepare_node_config = λ config. config;
  build_polkadot_full_node = λ config key telemetry w. (err (library 7), w);
  build_network = λ config p w. (ok 8, w);
  build_offchain_workers = λ config p net w. w;
  spawn_tasks = λ config p net apis w. (ok tt, w);
  spawn = λ e w. w;
  build_consensus = λ p relay net w. (ok 9, w);
  start_collator = λ id relay consensus w. (ok tt, w);
  start_full_node = λ id relay w. (ok tt, w);
  start_network = λ net w. w;
}

abbrev launched : Launched Lines
launched = record { libs = []; events = [] }

-- The node does not get to its network, and the one for development does.
not_reached :
    (start_node_impl all_features builders launcher Runtime.polka_smith configuration 1 2 2000
      launched).0
    ≡ err (failed (library 7))
unfolding start_node_impl new_partial
not_reached = refl

developed :
    (start_dev_impl all_features builders launcher configuration Sealing.instant true
      launched).1.events
    ≡ network
      ∷ offchain_workers
      ∷ authorship Sealing.instant
      ∷ tasks
      ∷ filter_maintenance
      ∷ transaction_maintenance
      ∷ network_started
      ∷ []
unfolding start_dev_impl new_partial
developed = refl

start_node_impl-start_dev_impl_example :
    Done
      (whole_node true (collator 2000) (network_started ∷ []))
      (whole_node true (collator 2000) [])
      []
      (start_node_impl all_features builders launcher Runtime.polka_smith configuration 1 2 2000
        launched)
    × Done
        (whole_dev true true Sealing.instant (network_started ∷ []))
        (whole_dev true true Sealing.instant [])
        []
        (start_dev_impl all_features builders launcher configuration Sealing.instant true launched)
start_node_impl-start_dev_impl_example =
    start_node_impl-start_dev_impl all_features builders launcher Runtime.polka_smith configuration
      1 2 2000 Sealing.instant true launched
