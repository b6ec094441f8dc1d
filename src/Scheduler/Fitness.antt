-- ===== src/Scheduler/Fitness.antt =====
-- nexus/scheduler/fitness.py, with `task_required_caps` of nexus/runtime/capacity.py. A worker's
-- `stats` are a record with an optional value for each key that the code reads. CPU load and
-- benchmark scores are whole numbers, and times whole milliseconds.
pub mod Ranking
use mathlib.Core.Option
use nexus_grid_grid.Prelude.{
  ℕ, ◌+◌, ◌-◌, ◌/◌, Bool, true, false, not, ◌&&◌, ◌||◌, List, [], ◌∷◌, Option, none, some, String,
  select, is_empty, all, contains, if◌then◌else◌, ltb, leb, ◌==◌, text_key,
}
use nexus_grid_grid.Prelude.Int.{ℤ, pos, negsuc, sub_ℕ}
use nexus_grid_grid.Prelude.Text.{strip, is_blank}
use nexus_grid_grid.Tasks.Env.{Task, TaskEnv, parse_task_env, or_default, seconds}
use nexus_grid_grid.Scheduler.Images.{normalize_list_field, image_gate}

-- `task.json`, as far as the scheduler reads it.
pub record Manifest : Type 0 where
  pub allow_cross_region : Option Bool
  pub runtime : Option String
  pub image : Option String
  pub ram_limit_mb : Option ℕ
  pub cpu_limit_pct : Option ℕ

-- `stats["capabilities"]`; a missing key has the value that the code falls back to.
pub record Capabilities : Type 0 where
  pub gpu : Bool
  pub tags : List String
  pub region : String
  pub supported_images : List String
  pub service_runtime : Bool

pub record WorkerInfo : Type 0 where
  pub last_seen : Option ℕ
  pub connection_type : Option String
  pub free_ram : Option ℕ
  pub dispatch_ram_cap_mb : Option ℕ
  pub dispatch_gpu_cap_mb : Option ℕ
  pub cpu : Option ℕ
  pub active_task_count : Option ℕ
  pub bench : Option ℕ
  pub capabilities : Capabilities

pub record RequiredCaps : Type 0 where
  pub require_gpu : Bool
  pub required_tags : List String
  pub preferred_region : String

unfoldable pub task_required_caps : Task → RequiredCaps
unfolding parse_task_env
task_required_caps task =
    let env = parse_task_env task in
    record {
      require_gpu = Option.get_or env.require_gpu false;
      required_tags = normalize_list_field (Option.get_or env.required_tags []);
      preferred_region = strip (Option.get_or env.preferred_region "");
    }

-- The sentences that `worker_unsupported_reason` returns; missing tags stand in the order of the
-- request, which the sentence sorts.
pub data Unsupported : Type 0 where
  relay_excluded no_service_runtime no_gpu : Unsupported
  image_refused : String → Unsupported
  missing_tags : List String → Unsupported
  wrong_region : (has wants : String) → Unsupported

unfoldable pub connection_of : WorkerInfo → String
connection_of worker = Option.get_or worker.connection_type "lan"

-- The `image` / `service` branch on the manifest's runtime.
unfoldable pub runtime_refusal : Capabilities → Manifest → Option Unsupported
runtime_refusal caps manifest =
    let runtime = Option.get_or manifest.runtime "docker" in
    if runtime == "docker"
    then (let required = strip (Option.get_or manifest.image "") in
        if image_gate required (normalize_list_field caps.supported_images)
        then none
        else some (image_refused required))
    else if (runtime == "service") && not caps.service_runtime
    then some no_service_runtime
    else none

-- The three checks on the required capabilities.
unfoldable pub caps_refusal : Capabilities → RequiredCaps → Option Unsupported
caps_refusal caps req =
    let tags = normalize_list_field caps.tags in
    if req.require_gpu && not caps.gpu
    then some no_gpu
    else if not (all (contains tags) req.required_tags)
    then some (missing_tags (select (λ t. not (contains tags t)) req.required_tags))
    else if not (is_blank req.preferred_region)
        && not (is_blank caps.region)
        && not (caps.region == req.preferred_region)
    then some (wrong_region caps.region req.preferred_region)
    else none

-- `cross` is LOCAL_SETTINGS["allow_cross_region_workers"].
unfoldable pub worker_unsupported_reason : Bool → Manifest → WorkerInfo → Task → Option Unsupported
unfolding connection_of runtime_refusal caps_refusal task_required_caps
worker_unsupported_reason cross manifest worker task =
    let refused = runtime_refusal worker.capabilities manifest in
    if (connection_of worker == "relay") && not (Option.get_or manifest.allow_cross_region cross)
    then some relay_excluded
    else elim refused [
      | some reason ↦ some reason
      | none ↦ caps_refusal worker.capabilities (task_required_caps task)
    ]

unfoldable pub worker_supports_task : Bool → Manifest → WorkerInfo → Task → Bool
worker_supports_task cross manifest worker task =
    elim (worker_unsupported_reason cross manifest worker task) [ none ↦ true | some r ↦ false ]

unfoldable pub gpu_score : Bool → Bool → ℕ
gpu_score require_gpu has_gpu =
    if require_gpu && has_gpu then 2 else if require_gpu then 0 else if has_gpu then 0 else 1

-- `-n`
abbrev pub negative : ℕ → ℤ
negative n = sub_ℕ 0 n

unfoldable pub worker_fit_score : ℕ → WorkerInfo → ℕ → ℕ → Bool → Option (List ℤ)
unfolding or_default connection_of gpu_score
worker_fit_score now worker req_ram req_cpu require_gpu =
    let free_ram = or_default worker.free_ram 0 in
    let dispatch_cap = or_default worker.dispatch_ram_cap_mb free_ram in
    let cpu = or_default worker.cpu 100 in
    if ltb (seconds 12) (now - or_default worker.last_seen 0)
    then none
    else if ltb dispatch_cap 128
    then none
    else some (
        pos (gpu_score require_gpu worker.capabilities.gpu)
        ∷ pos (if connection_of worker == "lan" then 2 else 1)
        ∷ pos (or_default worker.bench 0 / 5)
        ∷ pos (if leb req_ram dispatch_cap then 1 else 0)
        ∷ sub_ℕ dispatch_cap req_ram
        ∷ pos (or_default worker.dispatch_gpu_cap_mb 0)
        ∷ sub_ℕ req_cpu cpu
        ∷ pos free_ram
        ∷ negative (or_default worker.active_task_count 0)
        ∷ [])
