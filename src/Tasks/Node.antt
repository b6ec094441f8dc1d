-- ===== src/Tasks/Node.antt =====
-- The part of the process-wide `STATE` (nexus/core/state.py) that tasks and the scheduler share,
-- the settings they read, and the dispatch queue of nexus/tasks/queue.py.
use nexus_grid_grid.Prelude.{
  ℕ, ◌+◌, Bool, List, [], ◌∷◌, ◌++◌, Option, none, some, String, Dict, text_key, length, is_empty,
}
use nexus_grid_grid.Prelude.Dicts
use nexus_grid_grid.Tasks.State.{TaskState}
use nexus_grid_grid.Tasks.Env.{Reason}
use mathlib.Core.Option

-- What `events.publish` is given.
pub data BusEvent : Type 0 where
  status_changed : (task_id : String) (old new : TaskState) (reason : Reason) → BusEvent
  requeued dag_released dag_gated : (count : ℕ) → BusEvent

-- STATE.worker_outcomes: tasks finished and failed.
pub record Tally : Type 0 where
  pub finished : ℕ
  pub failed : ℕ

pub record Node : Type 0 where
  pub task_queue : List String
  pub interrupted_task_ids : List String
  pub preempted_task_ids : List String
  pub consent_strikes : List ((String × String) × ℕ)
  pub worker_cooldown_until : Dict String ℕ
  pub worker_outcomes : Dict String Tally
  pub metrics : Dict String ℕ
  pub events : List BusEvent

-- LOCAL_SETTINGS, the keys that the modelled code reads. Times are in milliseconds, except the
-- back-off base, which is in seconds.
pub record Settings : Type 0 where
  pub retry_backoff_base_sec : ℕ
  pub worker_cooldown : ℕ
  pub lease_ttl : ℕ
  pub queue_timeout_sec : ℕ
  pub step_gate : Bool
  pub prefer_reliable_workers : Bool
  pub master_quota_per_origin : ℕ
  pub allow_cross_region_workers : Bool

unfoldable pub publish : BusEvent → Node → Node
publish event node = record node { events = node.events ++ event ∷ [] }

unfoldable pub incr_metric : String → Node → Node
incr_metric name node = record node {
  metrics = Dicts.insert name (Option.get_or (Dicts.get name node.metrics) 0 + 1) node.metrics;
}

unfoldable pub enqueue_task : String → Node → Node
enqueue_task task_id node = record node { task_queue = node.task_queue ++ task_id ∷ [] }

-- `none` where the call waits for the next id.
unfoldable pub dequeue_task : Node → Option (String × Node)
dequeue_task node = next node.task_queue
  where
    next : List String → Option (String × Node)
    next [] = none
    next (task_id ∷ rest) = some (task_id, record node { task_queue = rest })

unfoldable pub queue_depth : Node → ℕ
queue_depth node = length node.task_queue

unfoldable pub queue_empty : Node → Bool
queue_empty node = is_empty node.task_queue
