-- ===== src/Storage/Samples.antt =====
-- A deposit on either side and a small depot, for the tests.
use nexus_grid_grid.Prelude.{true, [], ◌∷◌, none, some}
use nexus_grid_grid.Storage.Deposit.{
  host, depositor, eviction_requested, paused_silent, blank, at, Deposit, Depot, World, delivered,
}

abbrev pub evicted : Deposit
evicted = record {
  deposit_id = "d1";
  role = host;
  depositor_uuid = "p1";
  host_uuid = "p2";
  status = eviction_requested;
  created_at = at 10;
  ttl_at = blank;
  eviction_requested_at = at 1000;
  db_grace_at = blank;
  purged_at = blank;
  last_progress_at = blank;
  retry_count = some 1;
  eviction_total_days = some 2;
  transit_retries = none;
  offer_timeout_sec = none;
}

abbrev pub paused : Deposit
paused = record evicted { role = depositor; status = paused_silent }

abbrev pub depot : Depot
depot = record {
  keys = ("d1", record { key = "k"; unlocked_at = 5; last_used_at = 6 }) ∷ [];
  pumps = ("d1", "dir") ∷ [];
  disk = ("dir", record { chunks = "c0" ∷ []; baseline = true }) ∷ [];
  grace = [];
  upload_temp_dirs = [];
  removed_dirs = [];
  auto_started_at = [];
  auto_candidates = [];
  tripwire_fired = [];
  sent = [];
  audits = [];
  events = [];
}

abbrev pub world : World
world = record {
  now = 100000;
  evict_total_days = none;
  auto_offer_timeout_sec = none;
  transit_max_retries = none;
  abandoned_chunk_ttl_hours = none;
  presence = record { table = []; log = [] };
  send = λ peer frame. delivered;
  deposit_dir = λ id owner. "dir";
  check_deposit = λ dir. [];
}
