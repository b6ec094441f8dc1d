-- ===== src/Scheduler/Selection.antt =====
-- nexus/scheduler/selection.py: which queued task a worker gets, and which workers a task gets.
-- `resolve` is `resolve_uuid_to_ip`, and `manifest` the cached `read_task_manifest`.
pub mod Sorting
pub mod Chosen
pub mod Best
pub mod TopN
use mathlib.Core.Option
use nexus_grid_grid.Prelude.Dicts
use nexus_grid_grid.Prelude.{
  ℕ, ◌≤◌, Bool, true, false, not, ◌&&◌, ◌||◌, List, [], ◌∷◌, ◌++◌, map, Option, none, some, String,
  Dict, select, is_empty, take, contains, discard, if◌then◌else◌, ltb, leb, ◌==◌, nat_eq, text_key,
}
use nexus_grid_grid.Prelude.Int.{ℤ, pos, sub_ℕ, lex_lt, int_lt}
use nexus_grid_grid.Tasks.Env.{Task, parse_task_env, or_default, task_created_at}
use nexus_grid_grid.Tasks.Metadata.{Metadata, extract_task_metadata, text_or}
use nexus_grid_grid.Tasks.Node.{Node, Settings}
use nexus_grid_grid.Scheduler.Reliability.{reliability_bucket}
use nexus_grid_grid.Scheduler.Fitness.{
  Manifest, WorkerInfo, RequiredCaps, task_required_caps, worker_supports_task, worker_fit_score,
}

-- What the two selectors read.
pub record Context : Type 0 where
  pub settings : Settings
  pub now : ℕ
  pub node : Node
  pub node_uuid : String
  pub resolve : String → Option String
  pub manifest : Task → Manifest
  pub all_workers : Dict String WorkerInfo
  pub processing_by_master : Dict String ℕ
  pub group_pool : Dict String (List String)
  pub workflow_busy : Dict String (List String)

unfoldable pub pool_members : Dict String (List String) → List String → List String
pool_members pool [] = []
pool_members pool (g ∷ gs) = Option.get_or (Dicts.get g pool) [] ++ pool_members pool gs

-- Takes out each blocked member, and the address that it resolves to.
unfoldable pub without_blocked : (String → Option String) → List String → List String → List String
without_blocked resolve [] allowed = allowed
without_blocked resolve (u ∷ us) allowed =
    let ip = text_or (resolve u) "" in
    let kept = discard u allowed in
    without_blocked resolve us (if ip == "" then kept else discard ip kept)

-- `none` is the whole grid.
unfoldable pub allowed_targets :
    (String → Option String)
    → Dict String (List String)
    → List String
    → Metadata
    → Option (List String)
unfolding pool_members without_blocked
allowed_targets resolve pool preferred metadata =
    if is_empty preferred && is_empty metadata.target_groups
    then none
    else some (
        without_blocked resolve metadata.blocked_members
          (preferred ++ pool_members pool metadata.target_groups))

abbrev pub permits : Option (List String) → String → Bool
permits none worker = true
permits (some allowed) worker = contains allowed worker

-- A Python list of pairs, sorted by the second part with `reverse=True`: equal ones keep their order.
unfoldable pub place : String × List ℤ → List (String × List ℤ) → List (String × List ℤ)
place x [] = x ∷ []
place x (y ∷ ys) = let later = place x ys in if lex_lt x.1 y.1 then y ∷ later else x ∷ y ∷ ys

unfoldable pub sort_scored : List (String × List ℤ) → List (String × List ℤ)
unfolding place
sort_scored [] = []
sort_scored (x ∷ xs) = place x (sort_scored xs)

unfoldable pub cooling : Context → String → Bool
unfolding or_default
cooling ctx worker = ltb ctx.now (or_default (Dicts.get worker ctx.node.worker_cooldown_until) 0)

abbrev pub is_some {ℓ} : {A : Type ℓ} → Option A → Bool
is_some none = false
is_some (some a) = true

unfoldable pub available_workers : Context → Dict String WorkerInfo
unfolding cooling
available_workers ctx =
    select (λ w. not (cooling ctx w.0) && is_some (worker_fit_score ctx.now w.1 128 10 false))
      ctx.all_workers

unfoldable pub req_ram : Context → Task → ℕ
unfolding or_default
req_ram ctx task = or_default (ctx.manifest task).ram_limit_mb 512

unfoldable pub req_cpu : Context → Task → ℕ
unfolding or_default
req_cpu ctx task = or_default (ctx.manifest task).cpu_limit_pct 100

unfoldable pub supported : Context → Task → WorkerInfo → Bool
supported ctx task info =
    worker_supports_task ctx.settings.allow_cross_region_workers (ctx.manifest task) info task

-- The workers that already run a step of the same workflow, where steps are to be spread.
unfoldable pub busy_workers : Context → Metadata → Task → List String
busy_workers ctx metadata task =
    if metadata.one_step_per_node && not (task.parent_id == "")
    then Option.get_or (Dicts.get task.parent_id ctx.workflow_busy) []
    else []

unfoldable pub failed_workers_of : Task → List String
unfolding parse_task_env
failed_workers_of task = Option.get_or (parse_task_env task).failed_workers []

unfoldable pub prefers_reliable : Context → Metadata → Bool
prefers_reliable ctx metadata =
    Option.get_or metadata.prefer_reliable_workers ctx.settings.prefer_reliable_workers

-- The body of the inner loop: the score under which a worker competes for the task.
unfoldable pub worker_score :
    Context → Metadata → Option (List String) → Task → String → WorkerInfo → Option (List ℤ)
unfolding busy_workers failed_workers_of prefers_reliable supported req_ram req_cpu
worker_score ctx metadata allowed task cid info =
    let score =
      worker_fit_score ctx.now info (req_ram ctx task) (req_cpu ctx task)
        (task_required_caps task).require_gpu in
    if not (permits allowed cid)
      || contains (busy_workers ctx metadata task) cid
      || contains (failed_workers_of task) cid
      || not (supported ctx task info)
    then none
    else if prefers_reliable ctx metadata
    then Option.map (λ s. pos (reliability_bucket ctx.node (some cid)) ∷ s) score
    else score

-- A worker without a score is left out.
unfoldable pub add_scored :
    String → Option (List ℤ) → List (String × List ℤ) → List (String × List ℤ)
add_scored cid none others = others
add_scored cid (some s) others = (cid, s) ∷ others

unfoldable pub score_each :
    (String → WorkerInfo → Option (List ℤ)) → Dict String WorkerInfo → List (String × List ℤ)
unfolding add_scored
score_each score [] = []
score_each score ((cid, info) ∷ rest) = add_scored cid (score cid info) (score_each score rest)

-- `candidate_key`.
pub record Key : Type 0 where
  pub priority : ℕ
  pub pinned : ℕ
  pub score : List ℤ
  pub age : ℤ
  pub ram : ℕ

-- Python's `a < b` on the tuples.
unfoldable pub key_lt : Key → Key → Bool
key_lt a b =
    if ltb a.priority b.priority
    then true
    else if ltb b.priority a.priority
    then false
    else if ltb a.pinned b.pinned
    then true
    else if ltb b.pinned a.pinned
    then false
    else if lex_lt a.score b.score
    then true
    else if lex_lt b.score a.score
    then false
    else if int_lt a.age b.age
    then true
    else if int_lt b.age a.age
    then false
    else ltb a.ram b.ram

-- The guards of the outer loop before any worker is scored.
unfoldable pub may_compete : Context → Metadata → Option (List String) → String → Task → Bool
unfolding busy_workers
may_compete ctx metadata allowed worker task =
    let origin = text_or metadata.requested_by "unknown" in
    ltb (or_default (Dicts.get origin ctx.processing_by_master) 0)
      ctx.settings.master_quota_per_origin
    && permits allowed worker
    && not (contains (busy_workers ctx metadata task) worker)

unfoldable pub candidate_key : Context → Metadata → String → Task → List ℤ → Key
unfolding req_ram
candidate_key ctx metadata worker task score = record {
  priority = metadata.priority;
  pinned = if contains metadata.preferred_workers worker then 1 else 0;
  score = score;
  age = sub_ℕ ctx.now (or_default (some (task_created_at task)) ctx.now);
  ram = req_ram ctx task;
}

-- The ranked competitors for a task, best first.
unfoldable pub ranked : Context → Metadata → Option (List String) → Task → List (String × List ℤ)
unfolding score_each sort_scored worker_score available_workers
ranked ctx metadata allowed task =
    sort_scored (score_each (worker_score ctx metadata allowed task) (available_workers ctx))

abbrev pub metadata_of : Context → Task → Metadata
metadata_of ctx task = extract_task_metadata ctx.node_uuid ctx.now task

abbrev pub targets_of : Context → Task → Option (List String)
targets_of ctx task =
    let metadata = metadata_of ctx task in
    allowed_targets ctx.resolve ctx.group_pool metadata.preferred_workers metadata

-- The worker competes for the task only if it heads the ranking.
unfoldable pub claim : Context → String → Task → List (String × List ℤ) → Option Key
unfolding candidate_key
claim ctx worker task [] = none
claim ctx worker task (best ∷ rest) =
    if best.0 == worker
    then some (candidate_key ctx (metadata_of ctx task) worker task best.1)
    else none

-- The body of the outer loop: `none` where it goes on to the next task.
unfoldable pub candidate : Context → String → Task → Option Key
unfolding may_compete claim ranked
candidate ctx worker task =
    let metadata = metadata_of ctx task in
    let allowed = targets_of ctx task in
    if may_compete ctx metadata allowed worker task
    then claim ctx worker task (ranked ctx metadata allowed task)
    else none

unfoldable pub better : Option (Key × Task) → Key → Task → Option (Key × Task)
better none key task = some (key, task)
better (some (k, t)) key task = if key_lt k key then some (key, task) else some (k, t)

unfoldable pub offer : Option Key → Task → Option (Key × Task) → Option (Key × Task)
unfolding better
offer none task best = best
offer (some key) task best = better best key task

unfoldable pub best_candidate :
    (Task → Option Key) → List Task → Option (Key × Task) → Option (Key × Task)
unfolding offer
best_candidate key_of [] best = best
best_candidate key_of (t ∷ ts) best = best_candidate key_of ts (offer (key_of t) t best)

unfoldable pub select_task_for_worker : Context → String → List Task → Option Task
select_task_for_worker ctx worker [] = none
select_task_for_worker ctx worker (first ∷ rest) =
    if not (is_some (Dicts.get worker ctx.all_workers))
    then some first
    else if cooling ctx worker || is_empty (available_workers ctx)
    then none
    else Option.map (λ kt. kt.1) (best_candidate (candidate ctx worker) (first ∷ rest) none)

-- `select_top_n_workers`, with `manifest` read from the payload.
unfoldable pub top_score :
    Context → List String → Option (List String) → Task → String → WorkerInfo → Option (List ℤ)
unfolding cooling supported req_ram req_cpu
top_score ctx exclude allowed task cid info =
    if contains exclude cid
      || not (permits allowed cid)
      || cooling ctx cid
      || not (supported ctx task info)
    then none
    else worker_fit_score ctx.now info (req_ram ctx task) (req_cpu ctx task)
        (task_required_caps task).require_gpu

unfoldable pub select_top_n_workers : Context → Task → ℕ → List String → List String
select_top_n_workers ctx task n exclude =
    let metadata = extract_task_metadata ctx.node_uuid ctx.now task in
    let allowed = allowed_targets ctx.resolve ctx.group_pool [] metadata in
    map (λ scored. scored.0)
      (take n (sort_scored (score_each (top_score ctx exclude allowed task) ctx.all_workers)))
