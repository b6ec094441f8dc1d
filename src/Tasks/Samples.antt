-- ===== src/Tasks/Samples.antt =====
-- A small node and a task, for the tests.
use nexus_grid_grid.Prelude.{false, true, [], ◌∷◌, some, String}
use nexus_grid_grid.Tasks.State.{TaskState, processing}
use nexus_grid_grid.Tasks.Env.{Task, empty_env, Reason, text}
use nexus_grid_grid.Tasks.Node.{Node, Settings}

abbrev pub node : Node
node = record {
  task_queue = "t0" ∷ [];
  interrupted_task_ids = [];
  preempted_task_ids = [];
  consent_strikes = (("t1", "w1"), 2) ∷ (("t2", "w1"), 1) ∷ [];
  worker_cooldown_until = [];
  worker_outcomes = ("w1", record { finished = 3; failed = 1 }) ∷ [];
  metrics = [];
  events = [];
}

abbrev pub settings : Settings
settings = record {
  retry_backoff_base_sec = 5;
  worker_cooldown = 30000;
  lease_ttl = 45000;
  queue_timeout_sec = 0;
  step_gate = false;
  prefer_reliable_workers = true;
  master_quota_per_origin = 2;
  allow_cross_region_workers = true;
}

abbrev pub task_in : String → TaskState → String → Task
task_in id status depends_on = record {
  id = id;
  parent_id = "wf";
  status = status;
  depends_on = depends_on;
  env_vars =
      some (record empty_env { retry_max = some 3; retry_count = some 1; started_at = some 7 });
  worker = some "w1";
  logs = [];
}

abbrev pub running : Task
running = task_in "t1" processing ""

abbrev pub why : Reason
why = text "because"
