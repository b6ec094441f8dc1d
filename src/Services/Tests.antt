-- ===== src/Services/Tests.antt =====
-- The theorem on the health pass applied to a service that lost its primary.
use nexus_grid_grid.Prelude.Dicts
use nexus_grid_grid.Prelude.{true, ◌≡◌, [], ◌∷◌, none, text_key}
use nexus_grid_grid.Services.Health.{Services, service_health_pass}
use nexus_grid_grid.Services.Settled.{is_settled, service_health_pass_settles}

abbrev services : Services
services = record {
  service_records =
      (
        "s1",
        record {
          status = "running";
          worker_id = "w1";
          standbys = "w2" ∷ "w3" ∷ [];
          replica_strategy = none;
          promoted_at = 0;
        },
      )
      ∷ [];
  active_workers = ("w1", 1000) ∷ ("w3", 90000) ∷ [];
  notices = [];
}

service_health_pass_settles_example :
    is_settled 100000 services.active_workers
      (Dicts.get "s1" (service_health_pass 100000 services).service_records)
    ≡ true
service_health_pass_settles_example = service_health_pass_settles 100000 services "s1"
