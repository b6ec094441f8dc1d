-- ===== src/Services/Health.antt =====
-- The records of the services, and one health pass over them. `active_workers` keeps the time of the
-- last sign of life of each worker; the frames to the new primary and the reroutes are listed;
-- the notices to the dependents of a promoted service are left out.
use nexus_grid_grid.Prelude.Dicts
use nexus_grid_grid.Prelude.{
  ℕ, ◌+◌, Bool, false, not, ◌&&◌, ◌||◌, List, [], ◌∷◌, ◌++◌, Option, none, some, String, Dict,
  select, discard, if◌then◌else◌, ltb, ◌==◌, text_key,
}
use nexus_grid_grid.Tasks.State.{lower_equals}
use nexus_grid_grid.Tasks.Env.{seconds}
use nexus_grid_grid.Tasks.Metadata.{text_or}

pub record Service : Type 0 where
  pub status : String
  pub worker_id : String
  pub standbys : List String
  pub replica_strategy : Option String
  pub promoted_at : ℕ

pub data Notice : Type 0 where
  primary_lost no_replicas_left primary_promoted : (task_id : String) → Notice
  promote_frame reroute : (task_id worker : String) → Notice

pub record Services : Type 0 where
  pub service_records : Dict String Service
  pub active_workers : Dict String ℕ
  pub notices : List Notice

-- `PRIMARY_OFFLINE_AFTER_SEC` is twelve.
unfoldable pub worker_online : ℕ → Dict String ℕ → String → Bool
worker_online now active worker_id = elim (Dicts.get worker_id active) [
  | none ↦ false
  | some last_seen ↦ ltb now (last_seen + seconds 12)
]

unfoldable pub is_over : Service → Bool
is_over rec = (rec.status == "failed") || (rec.status == "stopped")

unfoldable pub needs_failover : ℕ → Dict String ℕ → Service → Bool
unfolding is_over
needs_failover now active rec =
    not (is_over rec) && not (not (rec.worker_id == "") && worker_online now active rec.worker_id)

unfoldable pub notify : Notice → Services → Services
notify notice s = record s { notices = s.notices ++ notice ∷ [] }

-- Changes the record that stands in the table now, if one does.
unfoldable pub update_live : String → (Service → Service) → Services → Services
update_live task_id change s = elim (Dicts.get task_id s.service_records) [
  | none ↦ s
  | some live ↦ record s { service_records = Dicts.insert task_id (change live) s.service_records }
]

unfoldable pub fail_service : Service → Service
fail_service live = record live { status = "failed"; worker_id = "" }

unfoldable pub promote : ℕ → String → Service → Service
promote now new_primary live = record live {
  status = "running";
  worker_id = new_primary;
  standbys = discard new_primary live.standbys;
  promoted_at = now;
}

-- The branch with a standby left.
unfoldable pub fail_over : ℕ → String → Service → String → Services → Services
unfolding notify update_live promote
fail_over now task_id rec new_primary s =
    let framed =
      if lower_equals (text_or rec.replica_strategy "snapshot") "snapshot"
      then notify (promote_frame task_id new_primary) s
      else s in
    notify (primary_promoted task_id)
      (notify (reroute task_id new_primary) (update_live task_id (promote now new_primary) framed))

-- The first standby in order, or the end of the service.
unfoldable pub replace_primary : ℕ → String → Service → List String → Services → Services
unfolding notify update_live fail_service fail_over
replace_primary now task_id rec [] s =
    notify (no_replicas_left task_id) (update_live task_id fail_service s)
replace_primary now task_id rec (new_primary ∷ rest) s = fail_over now task_id rec new_primary s

-- The body of the second loop, for a copy of the record that the first loop took.
unfoldable pub handle_candidate : ℕ → String × Service → Services → Services
unfolding notify replace_primary
handle_candidate now (task_id, rec) s =
    replace_primary now task_id rec (select (worker_online now s.active_workers) rec.standbys)
      (notify (primary_lost task_id) s)

unfoldable pub handle_each : ℕ → List (String × Service) → Services → Services
handle_each now [] s = s
handle_each now (c ∷ cs) s = handle_each now cs (handle_candidate now c s)

unfoldable pub service_health_pass : ℕ → Services → Services
unfolding handle_each needs_failover
service_health_pass now s =
    handle_each now
      (select (λ entry. needs_failover now s.active_workers entry.1) s.service_records) s
