-- ===== src/Storage/Timeline.antt =====
-- How the passes move the deposits over time.
use nexus_grid_grid.Prelude.{true, ◌≡◌, refl, List, text_key, arith, inl}
use nexus_grid_grid.Storage.Deposit.{Deposit, Depot, World, role_key, status_key, sweep}
use nexus_grid_grid.Storage.Deposit.Graph.{
  Kept, KeptAll, Kept-refl, KeptAll-Late, Late, is_underway, sweep-Pairs, sweep-Late,
}
use nexus_grid_grid.Storage.Host.{
  lifecycle_one, in_lifecycle, tripwire_one, on_tripwire, purge_abandoned_one, is_abandoned,
}
use nexus_grid_grid.Storage.Depositor.{
  queue_retry_one, is_queued_offline, auto_offer_one, is_offering_multi, transit_retry_one,
  is_paused,
}
use nexus_grid_grid.Storage.Passes.{lifecycle_passes}
use nexus_grid_grid.Storage.Handlers.{
  KeptBy, lifecycle_one-KeptBy, tripwire_one-Late, queue_retry_one-KeptBy, auto_offer_one-KeptBy,
  transit_retry_one-KeptBy, abandoned-KeptBy,
}

queued-underway : (row : Deposit) → is_queued_offline row ≡ true → is_underway row.status ≡ true
unfolding is_queued_offline
queued-underway row h = ground arith

offering-underway : (row : Deposit) → is_offering_multi row ≡ true → is_underway row.status ≡ true
unfolding is_offering_multi
offering-underway row h = ground arith

paused-underway : (row : Deposit) → is_paused row ≡ true → is_underway row.status ≡ true
unfolding is_paused
paused-underway row h = ground arith

abandoned-underway : (row : Deposit) → is_abandoned row ≡ true → is_underway row.status ≡ true
unfolding is_abandoned
abandoned-underway row h = ground arith

-- One pass over the table moves each row along at most one edge of the deposit's life, on the row's
-- own side, and changes neither its id nor its side nor the order of the rows.
pub lifecycle_passes-KeptAll :
    (w : World) (rows : List Deposit) (depot : Depot)
    → KeptAll rows (lifecycle_passes w rows depot).0
unfolding lifecycle_passes KeptBy
lifecycle_passes-KeptAll w rows depot =
    let (r1, d1) = sweep in_lifecycle (lifecycle_one w) rows depot in
    let (r2, d2) = sweep on_tripwire (tripwire_one w) r1 d1 in
    let (r3, d3) = sweep is_queued_offline (queue_retry_one w) r2 d2 in
    let (r4, d4) = sweep is_offering_multi (auto_offer_one w) r3 d3 in
    let (r5, d5) = sweep is_paused (transit_retry_one w) r4 d4 in
    let k1 =
      sweep-Pairs Kept in_lifecycle (lifecycle_one w) Kept-refl (lifecycle_one-KeptBy w) rows
        depot in
    let k2 =
      sweep-Pairs Late on_tripwire (tripwire_one w) (λ row. inl refl)
        (λ r d h. tripwire_one-Late w r d) r1 d1 in
    let k3 =
      sweep-Late is_queued_offline (queue_retry_one w) queued-underway (queue_retry_one-KeptBy w) r2
        d2 in
    let k4 =
      sweep-Late is_offering_multi (auto_offer_one w) offering-underway (auto_offer_one-KeptBy w) r3
        d3 in
    let k5 =
      sweep-Late is_paused (transit_retry_one w) paused-underway (transit_retry_one-KeptBy w) r4
        d4 in
    let k6 =
      sweep-Late is_abandoned (purge_abandoned_one w) abandoned-underway (abandoned-KeptBy w) r5
        d5 in
    let k13 = KeptAll-Late rows r2 r3 (KeptAll-Late rows r1 r2 k1 k2) k3 in
    let k15 = KeptAll-Late rows r4 r5 (KeptAll-Late rows r3 r4 k13 k4) k5 in
    KeptAll-Late rows r5 _ k15 k6
