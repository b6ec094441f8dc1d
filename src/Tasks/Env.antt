-- ===== src/Tasks/Env.antt =====
-- The task row (`TaskRecord` of nexus/storage/models.py) and its `NEXUS_META_*` environment, with
-- the readers and writers of nexus/tasks/metadata.py. The environment is a record with an optional
-- value for each key; a column that `json.loads` refuses is `none`. Times are whole milliseconds,
-- and numbers are not negative: every writer clamps them.
pub mod Retry
use nexus_grid_grid.Prelude.{
  ℕ, zero, suc, ◌*◌, min, max, Bool, true, false, List, [], ◌∷◌, ◌++◌, Option, none, some, String,
  take_last,
}
use nexus_grid_grid.Tasks.State.{TaskState}
use mathlib.Core.Option

abbrev pub seconds : ℕ → ℕ
seconds n = n * 1000

-- The f-strings that the callers pass as a reason.
pub data Reason : Type 0 where
  text : String → Reason
  retry_of : String → ℕ → ℕ → Reason
  dependencies_met dependencies_gated : String → Reason

pub data Details : Type 0 where
  initialized : Details
  transition : TaskState → TaskState → Reason → Details
  remark : String → Details

pub record TimelineEvent : Type 0 where
  pub ts : ℕ
  pub event : String
  pub details : Details

-- A `[STATE]` line of `task.logs`.
pub record LogLine : Type 0 where
  pub at : ℕ
  pub old : TaskState
  pub target : TaskState
  pub reason : Reason

pub record TaskEnv : Type 0 where
  pub coordination : Option String
  pub requested_by : Option String
  pub display_id : Option String
  pub created_at : Option ℕ
  pub priority : Option ℕ
  pub retry_max : Option ℕ
  pub retry_count : Option ℕ
  pub retry_backoff_base : Option ℕ
  pub next_retry_at : Option ℕ
  pub lease_seconds : Option ℕ
  pub lease_id : Option String
  pub lease_owner : Option String
  pub lease_expires_at : Option ℕ
  pub required_tags : Option (List String)
  pub require_gpu : Option Bool
  pub preferred_region : Option String
  pub orphan_policy : Option String
  pub queue_timeout : Option ℕ
  pub queued_at : Option ℕ
  pub started_at : Option ℕ
  pub completed_at : Option ℕ
  pub timeline : Option (List TimelineEvent)
  pub preferred_workers : Option (List String)
  pub preferred_worker : Option String
  pub target_groups : Option (List String)
  pub blocked_members : Option (List String)
  pub one_step_per_node : Option Bool
  pub prefer_reliable : Option Bool
  pub step_gate : Option Bool
  pub failed_workers : Option (List String)

abbrev pub empty_env : TaskEnv
empty_env = record {
  coordination = none;
  requested_by = none;
  display_id = none;
  created_at = none;
  priority = none;
  retry_max = none;
  retry_count = none;
  retry_backoff_base = none;
  next_retry_at = none;
  lease_seconds = none;
  lease_id = none;
  lease_owner = none;
  lease_expires_at = none;
  required_tags = none;
  require_gpu = none;
  preferred_region = none;
  orphan_policy = none;
  queue_timeout = none;
  queued_at = none;
  started_at = none;
  completed_at = none;
  timeline = none;
  preferred_workers = none;
  preferred_worker = none;
  target_groups = none;
  blocked_members = none;
  one_step_per_node = none;
  prefer_reliable = none;
  step_gate = none;
  failed_workers = none;
}

pub record Task : Type 0 where
  pub id : String
  pub parent_id : String
  pub status : TaskState
  pub depends_on : String
  pub env_vars : Option TaskEnv
  pub worker : Option String
  pub logs : List LogLine

unfoldable pub parse_task_env : Task → TaskEnv
parse_task_env task = Option.get_or task.env_vars empty_env

unfoldable pub write_task_env : Task → TaskEnv → Task
write_task_env task env = record task { env_vars = some env }

-- `int(value or default)`: a missing value and a zero both give the default.
unfoldable pub or_default : Option ℕ → ℕ → ℕ
or_default none d = d
or_default (some zero) d = d
or_default (some (suc n)) d = suc n

unfoldable pub task_priority : Task → ℕ
unfolding parse_task_env or_default
task_priority task = max 0 (min 100 (or_default (parse_task_env task).priority 50))

unfoldable pub task_created_at : Task → ℕ
unfolding parse_task_env or_default
task_created_at task = or_default (parse_task_env task).created_at 0

unfoldable pub task_retry_at : Task → ℕ
unfolding parse_task_env or_default
task_retry_at task = or_default (parse_task_env task).next_retry_at 0

pub record RetryPolicy : Type 0 where
  pub retry_max : ℕ
  pub retry_count : ℕ
  pub backoff_base : ℕ

-- `default_base` is LOCAL_SETTINGS["retry_backoff_base_sec"].
unfoldable pub get_retry_policy : ℕ → Task → RetryPolicy
unfolding parse_task_env or_default
get_retry_policy default_base task = record {
  retry_max = max 0 (or_default (parse_task_env task).retry_max 2);
  retry_count = max 0 (or_default (parse_task_env task).retry_count 0);
  backoff_base = max 1 (or_default (parse_task_env task).retry_backoff_base default_base);
}

unfoldable pub set_retry_policy : Task → RetryPolicy → Option ℕ → Task
unfolding parse_task_env write_task_env
set_retry_policy task policy next_retry_at = write_task_env task (record (parse_task_env task) {
  retry_max = some (max 0 policy.retry_max);
  retry_count = some (max 0 policy.retry_count);
  retry_backoff_base = some (max 1 policy.backoff_base);
  next_retry_at = some (Option.get_or next_retry_at 0);
})
