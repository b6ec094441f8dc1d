-- ===== src/Throttle/Tests.antt =====
-- The theorem on the throttle applied to a download slice at the lowest rate.
use nexus_grid_grid.Prelude.{false, true, ◌≡◌, [], ◌∷◌, List, arith}
use nexus_grid_grid.Throttle.{
  Rates, StorageThrottle, rate_of, burst_of, View, still_waiting, acquire,
}
use nexus_grid_grid.Throttle.Loop.{acquire_stuck}

abbrev lowest : Rates
lowest = record { storage_bw_busy_mbps = 1; storage_bw_idle_mbps = 0 }

abbrev empty : StorageThrottle
empty = record { busy_tokens = 0; idle_tokens = 0; last = 0 }

abbrev views : List View
views =
    record { now = 10; settings = lowest; is_busy_now = false; throttle = empty }
    ∷ record {
      now = 9000;
      settings = lowest;
      is_busy_now = true;
      throttle = record empty { idle_tokens = 5; last = 10 };
    }
    ∷ []

acquire_stuck_example : acquire lowest false 4194304 views ≡ still_waiting
unfolding rate_of burst_of
acquire_stuck_example = acquire_stuck lowest false 4194304 views (omega arith)
