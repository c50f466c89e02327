-- ===== src/Node/Partial/Components.antt =====
-- The components that `new_partial` of node/src/service.rs builds.
use polkafoundry.Base.{◌≡◌, arith, Bool, Option, none, some, [], ok}
use polkafoundry.Node.ChainSpec.{Runtime}
use polkafoundry.Node.Configuration.{Configuration}
use polkafoundry.Node.Partial.{
  Builders, PartialComponents, endpoints_of, start_telemetry, spawn_worker, import_queue_of,
  new_partial,
}

abbrev pub is_some : {A : Type 0} → Option A → Bool
is_some none = Bool.false
is_some (some _) = Bool.true

-- Components with what their uses unwrap: the rule to select a chain, the pools and the telemetry.
pub record Complete (dev : Bool) (config : Configuration) (p : PartialComponents) : Type 0 where
  pub selects : is_some p.select_chain ≡ dev
  pub filters : p.filter_pool ≡ some []
  pub pending : p.pending_transactions ≡ some []
  pub telemetry : is_some p.telemetry ≡ is_some (endpoints_of config.telemetry_endpoints)
  pub worker : is_some p.telemetry_worker_handle ≡ is_some (endpoints_of config.telemetry_endpoints)

-- Where `new_partial` succeeds, there is a rule to select a chain exactly for development, so that `start_dev`
-- does not panic for want of one; both pools are there and empty, so that no maintenance task panics; and
-- there are telemetry and a handle of its worker exactly if an endpoint for it was configured.
pub new_partial-Complete :
    {W : Type 0} (libs : Builders W) (r : Runtime) (config : Configuration) (dev : Bool) (w v : W)
    (p : PartialComponents)
    → new_partial libs r config dev w ≡ (ok p, v)
    → Complete dev config p
unfolding new_partial start_telemetry spawn_worker import_queue_of
new_partial-Complete libs r config dev w v p h = record {
  selects = ground arith;
  filters = ground arith;
  pending = ground arith;
  telemetry = ground arith;
  worker = ground arith;
}
