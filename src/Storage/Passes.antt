-- ===== src/Storage/Passes.antt =====
-- `foreign_storage_lifecycle_pass` of nexus/scheduler/dag.py: the passes in their order, all but the
-- automatic rescue at the end.
use nexus_grid_grid.Prelude.{List}
use nexus_grid_grid.Storage.Deposit.{Deposit, Depot, World, sweep}
use nexus_grid_grid.Storage.Host.{
  lifecycle_one, in_lifecycle, tripwire_one, on_tripwire, purge_abandoned_one, is_abandoned,
}
use nexus_grid_grid.Storage.Depositor.{
  queue_retry_one, is_queued_offline, auto_offer_one, is_offering_multi, transit_retry_one,
  is_paused,
}

unfoldable pub lifecycle_passes : World → List Deposit → Depot → List Deposit × Depot
unfolding sweep
lifecycle_passes w rows depot =
    let (r1, d1) = sweep in_lifecycle (lifecycle_one w) rows depot in
    let (r2, d2) = sweep on_tripwire (tripwire_one w) r1 d1 in
    let (r3, d3) = sweep is_queued_offline (queue_retry_one w) r2 d2 in
    let (r4, d4) = sweep is_offering_multi (auto_offer_one w) r3 d3 in
    let (r5, d5) = sweep is_paused (transit_retry_one w) r4 d4 in
    sweep is_abandoned (purge_abandoned_one w) r5 d5
