-- ===== src/Storage/Tests.antt =====
-- Runs on small inputs, and the theorems on storage and presence applied to them.
use nexus_grid_grid.Prelude.{
  ℕ, ◌+◌, ◌≤◌, ◌≡◌, ◌≢◌, refl, List, [], ◌∷◌, String, text_key, ne_of_beq,
}
use nexus_grid_grid.Storage.Deposit.{at, days, Status-discrete, Role-discrete}
use nexus_grid_grid.Storage.Deposit.Graph.{KeptAll}
use nexus_grid_grid.Storage.Host.{
  total_days_of, in_lifecycle, lifecycle_one, move_to_db_grace, purge_deposit, grace_due, purge_due,
}
use nexus_grid_grid.Storage.Depositor.{transit_retry_one}
use nexus_grid_grid.Storage.Passes.{lifecycle_passes}
use nexus_grid_grid.Storage.Timeline.{lifecycle_passes-KeptAll}
use nexus_grid_grid.Storage.Eviction.{passes_at, purged_after_total_days}
use nexus_grid_grid.Storage.Retries.{Decides, transit_retry_one-Decides}
use nexus_grid_grid.Storage.Samples.{evicted, paused, depot, world}

lifecycle_passes-KeptAll_example :
    KeptAll (evicted ∷ paused ∷ []) (lifecycle_passes world (evicted ∷ paused ∷ []) depot).0
lifecycle_passes-KeptAll_example = lifecycle_passes-KeptAll world (evicted ∷ paused ∷ []) depot

abbrev times : List ℕ
times = 2000 ∷ 86401000 ∷ 86402000 ∷ 172803000 ∷ []

purged_after_total_days_example :
    (t : ℕ) × ((passes_at world times evicted depot).0.purged_at ≡ at t)
    × (1000 + days (total_days_of evicted.eviction_total_days) ≤ t)
unfolding passes_at in_lifecycle lifecycle_one move_to_db_grace purge_deposit grace_due purge_due
    Status-discrete Role-discrete
purged_after_total_days_example =
    purged_after_total_days world times 1000 evicted depot refl refl refl

transit_retry_one-Decides_example :
    Decides world paused depot (transit_retry_one world paused depot)
transit_retry_one-Decides_example = transit_retry_one-Decides world paused depot

named : ◌≢◌ {A = String} "p1" ""
named = ne_of_beq "p1" "" refl
