-- ===== src/Tasks/Lifecycle.antt =====
-- nexus/tasks/lifecycle.py: the status transitions, the timeline, the retries and the markers.
-- Each call takes the time `now` that the clock shows while it runs.
pub mod Transitions
pub mod History
pub mod Ran
pub mod Retries
pub mod RetryBound
use mathlib.Core.Option
use nexus_grid_grid.Prelude.Dicts
use nexus_grid_grid.Prelude.{
  ℕ, zero, suc, ◌+◌, ◌*◌, ◌^◌, max, Bool, true, false, not, ◌&&◌, ◌||◌, List, [], ◌∷◌, ◌++◌, Option,
  none, some, String, take_last, contains, select, if◌then◌else◌, ◌==◌, leb, text_key, nat_eq,
}
use nexus_grid_grid.Tasks.State.{
  TaskState, queued, processing, serving, retrying, can_move, is_terminal, state_of_text,
  state_text, state_key,
}
use nexus_grid_grid.Tasks.Env.{
  Task, TaskEnv, Reason, retry_of, Details, transition, TimelineEvent, LogLine, RetryPolicy,
  seconds, parse_task_env, write_task_env, or_default, get_retry_policy, set_retry_policy,
}
use nexus_grid_grid.Tasks.Node.{Node, Settings, status_changed, publish, incr_metric}

unfoldable pub add_task_timeline_event : ℕ → Task → String → Details → Task
unfolding parse_task_env write_task_env
add_task_timeline_event now task event details =
    let env = parse_task_env task in
    let timeline = Option.get_or env.timeline [] in
    let entry : TimelineEvent = record { ts = now; event = event; details = details } in
    write_task_env task (record env { timeline = some (take_last 250 (timeline ++ entry ∷ [])) })

-- The stamps that the state entered asks for.
unfoldable pub stamp_queued : ℕ → TaskState → TaskEnv → TaskEnv
stamp_queued now target env = if target == queued then record env { queued_at = some now } else env

unfoldable pub stamp_started : ℕ → TaskState → TaskEnv → TaskEnv
unfolding or_default
stamp_started now target env =
    if (target == processing || target == serving) && or_default env.started_at 0 == 0
    then record env { started_at = some now }
    else env

unfoldable pub stamp_completed : ℕ → TaskState → TaskEnv → TaskEnv
unfolding is_terminal
stamp_completed now target env =
    if is_terminal target then record env { completed_at = some now } else env

-- A terminal task loses its consent strikes.
unfoldable pub forget_strikes : String → TaskState → Node → Node
unfolding is_terminal
forget_strikes task_id target node =
    if is_terminal target
    then record node {
      consent_strikes = select (λ strike. not (strike.0.0 == task_id)) node.consent_strikes;
    }
    else node

-- The transition itself, behind the checks.
unfoldable pub enter_state : ℕ → Task → TaskState → Reason → Node → Task × Node
unfolding parse_task_env write_task_env
enter_state now task target reason node =
    let old = task.status in
    let line : LogLine = record { at = now; old = old; target = target; reason = reason } in
    let moved : Task = record task { status = target; logs = task.logs ++ line ∷ [] } in
    let noted =
      add_task_timeline_event now moved "status_transition" (transition old target reason) in
    let env = stamp_queued now target (parse_task_env noted) in
    let env' = stamp_completed now target (stamp_started now target env) in
    (
      write_task_env noted env',
      publish (status_changed task.id old target reason) (forget_strikes task.id target node),
    )

pub record Outcome : Type 0 where
  pub ok : Bool
  pub task : Task
  pub node : Node

abbrev pub refused : Task → Node → Outcome
refused task node = record { ok = false; task = task; node = node }

abbrev pub done : Task × Node → Outcome
done after = record { ok = true; task = after.0; node = after.1 }

unfoldable pub move_to : ℕ → Task → TaskState → Reason → Bool → Node → Outcome
unfolding can_move
move_to now task target reason force node =
    if not force && not (can_move task.status target)
    then refused task node
    else if task.status == target
    then record { ok = true; task = task; node = node }
    else done (enter_state now task target reason node)

unfoldable pub set_task_status : ℕ → Task → String → Reason → Bool → Node → Outcome
set_task_status now task new_status reason force node = elim (state_of_text new_status) [
  | none ↦ refused task node
  | some target ↦ move_to now task target reason force node
]

unfoldable pub note_failed_worker : Task → String → Task
unfolding parse_task_env write_task_env
note_failed_worker task worker =
    let env = parse_task_env task in
    let failed_list = Option.get_or env.failed_workers [] in
    let noted = if contains failed_list worker then failed_list else failed_list ++ worker ∷ [] in
    write_task_env task (record env { failed_workers = some noted })

-- `if failed_worker`: neither missing nor empty.
abbrev pub truthy : Option String → Option String
truthy none = none
truthy (some w) = if w == "" then none else some w

unfoldable pub cool_down : Settings → ℕ → String → Node → Node
cool_down settings now worker node = record node {
  worker_cooldown_until =
      Dicts.insert worker (now + settings.worker_cooldown) node.worker_cooldown_until;
}

-- The part of `try_schedule_retry` behind its guard. The back-off doubles with each retry.
unfoldable pub schedule_retry :
    Settings → ℕ → Task → RetryPolicy → String → Option String → Node → Task × Node
unfolding set_retry_policy note_failed_worker cool_down
schedule_retry settings now task policy reason failed_worker node =
    let count = policy.retry_count in
    let at = now + seconds (policy.backoff_base * 2 ^ count) in
    let counted = set_retry_policy task (record policy { retry_count = count + 1 }) (some at) in
    let blamed : Task = elim failed_worker [
      | none ↦ counted
      | some w ↦ note_failed_worker counted w
    ] in
    let moved =
      set_task_status now blamed (state_text retrying)
        (retry_of reason (count + 1) policy.retry_max) true node in
    let cooled : Node = elim failed_worker [
      | none ↦ moved.node
      | some w ↦ cool_down settings now w moved.node
    ] in
    (moved.task, incr_metric "task_retries" cooled)

unfoldable pub try_schedule_retry : Settings → ℕ → Task → String → Option String → Node → Outcome
unfolding get_retry_policy
try_schedule_retry settings now task reason failed_worker node =
    let policy = get_retry_policy settings.retry_backoff_base_sec task in
    if leb policy.retry_max policy.retry_count
    then refused task node
    else done (schedule_retry settings now task policy reason (truthy failed_worker) node)

unfoldable pub mark_task_interrupted : String → Node → Node × Bool
mark_task_interrupted task_id node =
    if contains node.interrupted_task_ids task_id
    then (node, false)
    else (record node { interrupted_task_ids = task_id ∷ node.interrupted_task_ids }, true)

unfoldable pub mark_task_preempted : String → Node → Node × Bool
mark_task_preempted task_id node =
    if contains node.preempted_task_ids task_id
    then (node, false)
    else (record node { preempted_task_ids = task_id ∷ node.preempted_task_ids }, true)

unfoldable pub is_task_interrupted : String → Node → Bool
is_task_interrupted task_id node = contains node.interrupted_task_ids task_id

unfoldable pub is_task_preempted : String → Node → Bool
is_task_preempted task_id node = contains node.preempted_task_ids task_id
