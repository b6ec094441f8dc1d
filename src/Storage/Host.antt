-- ===== src/Storage/Host.antt =====
-- The host's passes: the eviction lifecycle, the tripwire, and the purge of abandoned chunks.
use mathlib.Core.Option
use nexus_grid_grid.Prelude.Dicts
use nexus_grid_grid.Prelude.{
  ℕ, ◌+◌, ◌-◌, max, Bool, false, not, ◌&&◌, ◌||◌, List, [], ◌∷◌, Option, none, some, String,
  contains, take, Dict, is_empty, if◌then◌else◌, ltb, leb, ◌==◌, text_key,
}
use nexus_grid_grid.Tasks.Env.{or_default}
use nexus_grid_grid.Storage.Deposit.{
  host, transferring, stored, eviction_requested, in_db_grace, purged, withdrawn,
  paused_send_failed, paused_silent, paused_depositor_shutdown, paused_depositor_down, role_key,
  status_key, at, is_set, parse_iso, stamp_or, hours, days, Deposit, Depot, World, Folder, raised,
  eviction_request, tripwire_fired, unauthorized_access, audit, post, announce,
}

-- The days from Evict to purge, and the part of them that waits for the depositor's answer.
unfoldable pub total_days_of : Option ℕ → ℕ
unfolding or_default
total_days_of total = max 1 (or_default total 3)

unfoldable pub response_window : ℕ → ℕ
response_window total_days = if leb 2 total_days then 1 else 0

-- Removes the chunks and the baseline; a folder without either is as good as gone.
unfoldable pub empty_folder : String → Dict String Folder → Dict String Folder
empty_folder dir disk = elim (Dicts.get dir disk) [
  | none ↦ disk
  | some folder ↦ Dicts.insert dir (record { chunks = []; baseline = false }) disk
]

-- Without a pump the directory is the empty path, the current directory. The blob is the list of the
-- chunks that the code joins.
unfoldable pub move_to_db_grace : World → Deposit → Depot → Deposit × Depot
unfolding audit empty_folder
move_to_db_grace w row depot =
    let dir = Option.get_or (Dicts.get row.deposit_id depot.pumps) "" in
    let found = Dicts.get dir depot.disk in
    let blob : List String = elim found [ none ↦ [] | some folder ↦ folder.chunks ] in
    (
      record row { status = in_db_grace; db_grace_at = at w.now },
      audit "storage.deposit_decommissioned" row.deposit_id (record depot {
        disk = empty_folder dir depot.disk;
        grace = Dicts.insert row.deposit_id blob depot.grace;
      }),
    )

-- `purged_at`, a label that is shown and never parsed, is kept as the time that it shows.
unfoldable pub purge_deposit : World → Deposit → Depot → Deposit × Depot
unfolding audit
purge_deposit w row depot = (
  record row { status = purged; purged_at = at w.now },
  audit "storage.deposit_purged" row.deposit_id (record depot {
    grace = Dicts.erase row.deposit_id depot.grace;
    pumps = Dicts.erase row.deposit_id depot.pumps;
  }),
)

-- The third branch: a stored deposit past its time-to-live.
unfoldable pub start_eviction : World → Deposit → Depot → Deposit × Depot
unfolding audit post total_days_of
start_eviction w row depot =
    let total_days = total_days_of w.evict_total_days in
    let frame = eviction_request row.deposit_id 1 total_days in
    let told = post row.depositor_uuid frame depot in
    (
      record row {
        status = eviction_requested;
        eviction_requested_at = at w.now;
        eviction_total_days = some total_days;
      },
      elim (w.send row.depositor_uuid frame) [
        | raised ↦ told
        | _ ↦ audit "storage.eviction_requested" row.deposit_id told
      ],
    )

-- The three deadlines.
unfoldable pub grace_due : World → Deposit → Bool
unfolding total_days_of response_window parse_iso
grace_due w row =
    let window = response_window (total_days_of row.eviction_total_days) in
    leb (parse_iso w.now row.eviction_requested_at + days window) w.now

unfoldable pub purge_due : World → Deposit → Bool
unfolding total_days_of response_window parse_iso
purge_due w row =
    let total_days = total_days_of row.eviction_total_days in
    leb (parse_iso w.now row.db_grace_at + days (total_days - response_window total_days)) w.now

unfoldable pub ttl_over : World → Deposit → Bool
unfolding parse_iso
ttl_over w row = leb (parse_iso w.now row.ttl_at) w.now

unfoldable pub lifecycle_one : World → Deposit → Depot → Deposit × Depot
lifecycle_one w row depot =
    if (row.status == eviction_requested) && is_set row.eviction_requested_at
    then (if grace_due w row then move_to_db_grace w row depot else (row, depot))
    else if (row.status == in_db_grace) && is_set row.db_grace_at
    then (if purge_due w row then purge_deposit w row depot else (row, depot))
    else if (row.status == stored) && is_set row.ttl_at
    then (if ttl_over w row then start_eviction w row depot else (row, depot))
    else (row, depot)

unfoldable pub in_lifecycle : Deposit → Bool
in_lifecycle row =
    (row.role == host)
    && (row.status == eviction_requested || row.status == in_db_grace || row.status == stored)

unfoldable pub tripwire_one : World → Deposit → Depot → Deposit × Depot
unfolding audit post announce
tripwire_one w row depot =
    let dir = w.deposit_dir row.deposit_id row.depositor_uuid in
    let armed : Bool = elim (Dicts.get dir depot.disk) [
      | none ↦ false
      | some folder ↦ folder.baseline
    ] in
    let changed = w.check_deposit dir in
    if not armed || is_empty changed || contains depot.tripwire_fired row.deposit_id
    then (row, depot)
    else (
      row,
      post row.depositor_uuid (tripwire_fired row.deposit_id (take 8 changed)) (
          announce (unauthorized_access row.deposit_id (take 8 changed)) (
            audit "storage.unauthorized_access_detected" row.deposit_id
              (record depot { tripwire_fired = row.deposit_id ∷ depot.tripwire_fired }))),
    )

unfoldable pub on_tripwire : Deposit → Bool
on_tripwire row = (row.role == host) && (row.status == stored)

unfoldable pub is_abandoned : Deposit → Bool
is_abandoned row =
    (row.role == host)
    && (row.status == transferring
        || row.status == paused_send_failed
        || row.status == paused_silent
        || row.status == paused_depositor_shutdown
        || row.status == paused_depositor_down)

-- `t + ttl < now`, which says `t < now - ttl`.
unfoldable pub purge_abandoned_one : World → Deposit → Depot → Deposit × Depot
unfolding audit or_default parse_iso empty_folder
purge_abandoned_one w row depot =
    let ttl = hours (or_default w.abandoned_chunk_ttl_hours 24) in
    let anchor = stamp_or row.last_progress_at row.created_at in
    let dir = w.deposit_dir row.deposit_id row.depositor_uuid in
    if not (is_set anchor) || not (ltb (parse_iso w.now anchor + ttl) w.now)
    then (row, depot)
    else (
      record row { status = withdrawn },
      audit "storage.host_abandoned_chunks_purged" row.deposit_id
          (record depot { disk = empty_folder dir depot.disk }),
    )
