-- ===== src/Storage/Deposit.antt =====
-- The deposit row (`ForeignStorageDeposit` of nexus/storage/models.py), and what the passes of
-- nexus/scheduler/dag.py read and write beside it. Times are in milliseconds since the epoch.
pub mod Graph
use nexus_grid_grid.Prelude.{
  ℕ, ◌*◌, ◌+◌, Bool, true, false, List, [], ◌∷◌, ◌++◌, Option, String, Dict, Eq, key_of_discrete,
  if◌then◌else◌,
}
use nexus_grid_grid.Presence.{Presence}
use nexus_grid_grid.Storage.Keys.{Bucket}

pub data Role : Type 0 where
  host depositor : Role

unfoldable pub Role-discrete : Discrete Role
Role-discrete = hlevel

instance abbrev pub role_key : Eq Role
role_key = key_of_discrete Role-discrete

-- Every value that the program writes into `status`.
pub data Status : Type 0 where
  offered accepted transferring stored eviction_requested in_db_grace purged withdrawn : Status
  queued_offline offering_multi failed_in_transit declined rejected : Status
  paused_send_failed paused_silent paused_host_shutdown paused_host_down : Status
  paused_depositor_shutdown paused_depositor_down evicting_to_cloud rescued_encrypted : Status

unfoldable pub Status-discrete : Discrete Status
Status-discrete = hlevel

instance abbrev pub status_key : Eq Status
status_key = key_of_discrete Status-discrete

-- A column that holds a time as text: empty, not parsed by `_parse_iso`, or a time.
pub data Stamp : Type 0 where
  blank unreadable : Stamp
  at : ℕ → Stamp

abbrev pub is_set : Stamp → Bool
is_set blank = false
is_set unreadable = true
is_set (at t) = true

-- `_parse_iso`, which falls back to the present.
unfoldable pub parse_iso : ℕ → Stamp → ℕ
parse_iso now blank = now
parse_iso now unreadable = now
parse_iso now (at t) = t

abbrev pub hours : ℕ → ℕ
hours n = 3600000 * n

abbrev pub days : ℕ → ℕ
days n = 86400000 * n

-- `a or b`
abbrev pub stamp_or : Stamp → Stamp → Stamp
stamp_or a b = if is_set a then a else b

pub record Deposit : Type 0 where
  pub deposit_id : String
  pub role : Role
  pub depositor_uuid : String
  pub host_uuid : String
  pub status : Status
  pub created_at : Stamp
  pub ttl_at : Stamp
  pub eviction_requested_at : Stamp
  pub db_grace_at : Stamp
  pub purged_at : Stamp
  pub last_progress_at : Stamp
  pub retry_count : Option ℕ
  pub eviction_total_days : Option ℕ
  pub transit_retries : Option ℕ
  pub offer_timeout_sec : Option ℕ

-- The frames that the passes send; an offer carries the columns of the row.
pub data Frame : Type 0 where
  eviction_request : (deposit_id : String) (response_window_days total_days : ℕ) → Frame
  tripwire_fired : (deposit_id : String) (changed_chunks : List String) → Frame
  storage_offer : Deposit → Frame
  offer_cancelled delete_now resume_request : (deposit_id : String) → Frame

-- What `_send_to_peer` comes back with.
pub data Sent : Type 0 where
  delivered undelivered raised : Sent

-- `record_audit_event`: its name and the deposit.
pub record Audit : Type 0 where
  pub event : String
  pub task_id : String

pub data StorageEvent : Type 0 where
  unauthorized_access : (deposit_id : String) (changed : List String) → StorageEvent
  auto_offer_failed transit_failed : (deposit_id reason : String) → StorageEvent

-- A chunk directory on disk: its chunks, in order, and whether a baseline is armed.
pub record Folder : Type 0 where
  pub chunks : List String
  pub baseline : Bool

pub record Depot : Type 0 where
  pub keys : Bucket
  pub pumps : Dict String String
  pub disk : Dict String Folder
  pub grace : Dict String (List String)
  pub upload_temp_dirs : Dict String String
  pub removed_dirs : List String
  pub auto_started_at : Dict String ℕ
  pub auto_candidates : Dict String (List String)
  pub tripwire_fired : List String
  pub sent : List (String × Frame)
  pub audits : List Audit
  pub events : List StorageEvent

-- What a pass reads: the clock, the settings, the presence table, the network and the file checks.
pub record World : Type 0 where
  pub now : ℕ
  pub evict_total_days : Option ℕ
  pub auto_offer_timeout_sec : Option ℕ
  pub transit_max_retries : Option ℕ
  pub abandoned_chunk_ttl_hours : Option ℕ
  pub presence : Presence
  pub send : String → Frame → Sent
  pub deposit_dir : (deposit_id depositor_uuid : String) → String
  pub check_deposit : (dir : String) → List String

unfoldable pub audit : String → String → Depot → Depot
audit event id depot = record depot {
  audits = depot.audits ++ (record { event = event; task_id = id }) ∷ [];
}

unfoldable pub post : String → Frame → Depot → Depot
post peer frame depot = record depot { sent = depot.sent ++ (peer, frame) ∷ [] }

unfoldable pub announce : StorageEvent → Depot → Depot
announce event depot = record depot { events = depot.events ++ event ∷ [] }

-- A loop over the rows that the query selects; each row's handler writes its row.
unfoldable pub sweep :
    (Deposit → Bool)
    → (Deposit → Depot → Deposit × Depot)
    → List Deposit
    → Depot
    → List Deposit × Depot
sweep pick handle [] depot = ([], depot)
sweep pick handle (row ∷ rows) depot =
    let (row', depot') = if pick row then handle row depot else (row, depot) in
    let (rows', after) = sweep pick handle rows depot' in (row' ∷ rows', after)
