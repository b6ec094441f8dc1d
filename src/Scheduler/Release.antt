-- ===== src/Scheduler/Release.antt =====
-- One pass of the workflow scheduler, `release_ready_tasks` of nexus/scheduler/dag.py, and one sweep
-- of `retry_scheduler_loop` of nexus/scheduler/retry.py, over the rows of the task table.
pub mod Decision
pub mod Requeue
pub mod Repeats
pub mod Met
use nexus_grid_grid.Prelude.{
  ℕ, ◌+◌, Bool, true, false, ◌&&◌, List, [], ◌∷◌, map, Option, none, some, String, length, is_empty,
  select, all, contains, if◌then◌else◌, ltb, ◌==◌, nat_eq, text_key,
}
use nexus_grid_grid.Prelude.Text.{csv_items}
use nexus_grid_grid.Tasks.State.{
  TaskState, waiting, queued, awaiting_approval, retrying, completed, state_text, state_key,
}
use nexus_grid_grid.Tasks.Env.{
  Task, Reason, text, dependencies_met, dependencies_gated, parse_task_env, task_retry_at,
}
use nexus_grid_grid.Tasks.Node.{Node, Settings, enqueue_task, incr_metric, publish, requeued}
use nexus_grid_grid.Tasks.Lifecycle.{Outcome, set_task_status}

-- The per-dispatch override, or the node's default.
unfoldable pub gate_on : Settings → Task → Bool
unfolding parse_task_env
gate_on settings task = elim (parse_task_env task).step_gate [
  | none ↦ settings.step_gate
  | some gate ↦ gate
]

-- What a pass has done so far: the table, the shared state, and the two counts.
pub record Pass : Type 0 where
  pub rows : List Task
  pub node : Node
  pub queued_now : ℕ
  pub gated_now : ℕ

-- Writes a changed row back.
unfoldable pub put_row : Task → List Task → List Task
put_row task rows = map (λ r. if r.id == task.id then task else r) rows

-- `select(TaskRecord).filter(TaskRecord.id.in_(deps))`
unfoldable pub dep_records : List Task → List String → List Task
dep_records rows deps = select (λ r. contains deps r.id) rows

unfoldable pub deps_completed : List Task → List String → Bool
unfolding dep_records
deps_completed rows deps =
    let found = dep_records rows deps in
    length found == length deps && all (λ d. d.status == completed) found

-- Move to `queued` and, if that succeeds, enqueue the id and count it.
unfoldable pub queue_task : ℕ → Task → Reason → String → Pass → Pass
unfolding put_row
queue_task now task reason metric pass =
    let out = set_task_status now task (state_text queued) reason false pass.node in
    if out.ok
    then record pass {
      rows = put_row out.task pass.rows;
      node = incr_metric metric (enqueue_task task.id out.node);
      queued_now = pass.queued_now + 1;
    }
    else pass

unfoldable pub gate_task : ℕ → Task → Pass → Pass
unfolding put_row
gate_task now task pass =
    let out =
      set_task_status now task (state_text awaiting_approval) (dependencies_gated task.depends_on)
        false pass.node in
    if out.ok
    then record pass {
      rows = put_row out.task pass.rows;
      node = out.node;
      gated_now = pass.gated_now + 1;
    }
    else pass

-- The body of the loop of `release_ready_tasks`.
unfoldable pub release_one : Settings → ℕ → Task → Pass → Pass
unfolding deps_completed gate_on
release_one settings now task pass =
    let deps = csv_items task.depends_on in
    if is_empty deps
    then queue_task now task (text "No dependencies remaining.") "tasks_dispatched" pass
    else if deps_completed pass.rows deps
    then (if gate_on settings task
        then gate_task now task pass
        else queue_task now task (dependencies_met task.depends_on) "tasks_dispatched" pass)
    else pass

unfoldable pub release_each : Settings → ℕ → List Task → Pass → Pass
release_each settings now [] pass = pass
release_each settings now (t ∷ ts) pass =
    release_each settings now ts (release_one settings now t pass)

unfoldable pub release_ready_tasks : Settings → ℕ → List Task → Node → Pass
unfolding release_each
release_ready_tasks settings now rows node =
    release_each settings now (select (λ t. t.status == waiting) rows)
      (record { rows = rows; node = node; queued_now = 0; gated_now = 0 })

-- The body of the loop of `retry_scheduler_loop`.
unfoldable pub requeue_one : ℕ → Task → Pass → Pass
requeue_one now task pass =
    if ltb now (task_retry_at task)
    then pass
    else queue_task now task (text "Retry backoff elapsed.") "tasks_requeued" pass

unfoldable pub requeue_each : ℕ → List Task → Pass → Pass
requeue_each now [] pass = pass
requeue_each now (t ∷ ts) pass = requeue_each now ts (requeue_one now t pass)

-- One round of `retry_scheduler_loop`; it publishes a count only where it queued something.
unfoldable pub retry_sweep : ℕ → List Task → Node → Pass
unfolding requeue_each
retry_sweep now rows node =
    let after =
      requeue_each now (select (λ t. t.status == retrying) rows)
        (record { rows = rows; node = node; queued_now = 0; gated_now = 0 }) in
    if after.queued_now == 0
    then after
    else record after { node = publish (requeued after.queued_now) after.node }
