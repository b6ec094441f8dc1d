-- ===== src/Scheduler/Samples.antt =====
-- A small grid, for the tests.
use nexus_grid_grid.Prelude.{false, true, List, [], ◌∷◌, none, some}
use nexus_grid_grid.Tasks.State.{waiting, completed}
use nexus_grid_grid.Tasks.Env.{Task}
use nexus_grid_grid.Tasks.Samples.{node, settings, task_in}
use nexus_grid_grid.Scheduler.Fitness.{Manifest, WorkerInfo}
use nexus_grid_grid.Scheduler.Release.{Pass}
use nexus_grid_grid.Scheduler.Selection.{Context}

abbrev pub manifest : Manifest
manifest = record {
  allow_cross_region = none;
  runtime = some "docker";
  image = some "python:3";
  ram_limit_mb = some 256;
  cpu_limit_pct = some 50;
}

abbrev pub worker : WorkerInfo
worker = record {
  last_seen = some 100000;
  connection_type = some "lan";
  free_ram = some 4096;
  dispatch_ram_cap_mb = none;
  dispatch_gpu_cap_mb = none;
  cpu = some 20;
  active_task_count = none;
  bench = some 40;
  capabilities = record {
    gpu = false;
    tags = [];
    region = "";
    supported_images = "python:*" ∷ [];
    service_runtime = false;
  };
}

abbrev pub relay_worker : WorkerInfo
relay_worker = record worker { connection_type = some "relay"; bench = some 90 }

abbrev pub gpu_worker : WorkerInfo
gpu_worker = record worker { capabilities = record worker.capabilities { gpu = true } }

abbrev pub grid : Context
grid = record {
  settings = settings;
  now = 101000;
  node = node;
  node_uuid = "m1";
  resolve = λ uuid. none;
  manifest = λ task. manifest;
  all_workers = ("w1", worker) ∷ ("w2", relay_worker) ∷ ("w3", gpu_worker) ∷ [];
  processing_by_master = ("m1", 1) ∷ [];
  group_pool = [];
  workflow_busy = [];
}

abbrev pub first_step : Task
first_step = task_in "a" completed ""

abbrev pub last_step : Task
last_step = task_in "b" waiting "a"

abbrev pub doubled : Task
doubled = task_in "c" waiting "a, a"

abbrev pub rows : List Task
rows = first_step ∷ last_step ∷ doubled ∷ []

abbrev pub pass : Pass
pass = record { rows = rows; node = node; queued_now = 0; gated_now = 0 }
