-- ===== src/Tasks/Metadata.antt =====
-- `extract_task_metadata` of nexus/tasks/metadata.py: the view of a task that the scheduler and the
-- user interface read. `node_uuid` is this node's id.
use mathlib.Core.Option
use nexus_grid_grid.Prelude.{
  ℕ, ◌-◌, Bool, false, not, ◌&&◌, ◌||◌, List, [], ◌∷◌, Option, none, some, String, is_empty,
  contains, take_last, if◌then◌else◌, ◌==◌, nat_eq, text_key,
}
use nexus_grid_grid.Tasks.State.{completed, state_key}
use nexus_grid_grid.Tasks.Env.{Task, TaskEnv, TimelineEvent, parse_task_env, or_default}
use nexus_grid_grid.Scheduler.Images.{normalize_list_field}

-- The sentence shown for the coordination, before the groups.
pub data Coordination : Type 0 where
  serving_for sent_to requested_by : String → Coordination
  pinned_to : List String → Coordination

pub record Metadata : Type 0 where
  pub display_id : String
  pub coordination : String
  pub requested_by : Option String
  pub preferred_workers : List String
  pub target_groups : List String
  pub blocked_members : List String
  pub one_step_per_node : Bool
  pub prefer_reliable_workers : Option Bool
  pub step_gate : Option Bool
  pub priority : ℕ
  pub retry_max : ℕ
  pub retry_count : ℕ
  pub timeline : List TimelineEvent
  pub queue_timeout : ℕ
  pub queued_at : ℕ
  pub started_at : ℕ
  pub completed_at : ℕ
  pub elapsed : Option ℕ
  pub coordination_text : Coordination
  pub via_groups : List String
  pub has_download : Bool

-- `value or default` on texts.
abbrev pub text_or : Option String → String → String
text_or none d = d
text_or (some w) d = if w == "" then d else w

unfoldable pub preferred_of : TaskEnv → List String
preferred_of env =
    let listed = normalize_list_field (Option.get_or env.preferred_workers []) in
    let first = text_or env.preferred_worker "" in
    if (first == "") || contains listed first then listed else first ∷ listed

-- `_task_elapsed_secs`, in milliseconds and before rounding.
unfoldable pub task_elapsed : ℕ → TaskEnv → Option ℕ
unfolding or_default
task_elapsed now env =
    let started = or_default env.started_at 0 in
    let completed_at = or_default env.completed_at 0 in
    if started == 0
    then none
    else some ((if completed_at == 0 then now else completed_at) - started)

unfoldable pub coordination_of : String → Task → TaskEnv → Coordination
unfolding preferred_of
coordination_of node_uuid task env =
    if Option.get_or env.coordination "requested" == "serving"
    then serving_for (text_or env.requested_by "Unknown")
    else if not (text_or task.worker "" == "")
    then sent_to (text_or task.worker "")
    else if not (is_empty (preferred_of env))
    then pinned_to (preferred_of env)
    else requested_by (text_or env.requested_by node_uuid)

unfoldable pub extract_task_metadata : String → ℕ → Task → Metadata
unfolding parse_task_env or_default preferred_of task_elapsed coordination_of
extract_task_metadata node_uuid now task =
    let env = parse_task_env task in
    let coordination = Option.get_or env.coordination "requested" in
    let groups = normalize_list_field (Option.get_or env.target_groups []) in
    record {
      display_id = Option.get_or env.display_id task.id;
      coordination = coordination;
      requested_by = env.requested_by;
      preferred_workers = preferred_of env;
      target_groups = groups;
      blocked_members = normalize_list_field (Option.get_or env.blocked_members []);
      one_step_per_node = Option.get_or env.one_step_per_node false;
      prefer_reliable_workers = env.prefer_reliable;
      step_gate = env.step_gate;
      priority = or_default env.priority 50;
      retry_max = or_default env.retry_max 2;
      retry_count = or_default env.retry_count 0;
      timeline = take_last 50 (Option.get_or env.timeline []);
      queue_timeout = or_default env.queue_timeout 0;
      queued_at = or_default env.queued_at 0;
      started_at = or_default env.started_at 0;
      completed_at = or_default env.completed_at 0;
      elapsed = task_elapsed now env;
      coordination_text = coordination_of node_uuid task env;
      via_groups = groups;
      has_download = not (coordination == "serving") && (task.status == completed);
    }
