-- ===== src/Scheduler/Release/Decision.antt =====
-- What the pass decides for a waiting task, and what it never does.
use nexus_grid_grid.Prelude.{
  ℕ, ◌+◌, true, false, ◌≡◌, ◌≢◌, refl, List, [], ◌∷◌, ◌++◌, Option, none, some, String, is_empty,
  if◌then◌else◌, ◌==◌, nat_eq, text_key, arith, ap, not, ◌&&◌, ◌||◌, Bool-cases, inl, inr, sym, ◌∙◌,
}
use mathlib.Core.List.{append-nil}
use nexus_grid_grid.Prelude.Text.{csv_items}
use nexus_grid_grid.Tasks.State.{
  TaskState, waiting, queued, awaiting_approval, can_move, state_text, state_key,
  TaskState-discrete,
}
use nexus_grid_grid.Tasks.Env.{Task, Reason, text, dependencies_met, dependencies_gated}
use nexus_grid_grid.Tasks.Node.{Node, Settings, enqueue_task, incr_metric, publish}
use nexus_grid_grid.Tasks.Lifecycle.{forget_strikes, enter_state, set_task_status, done}
use nexus_grid_grid.Tasks.Lifecycle.Transitions.{
  set_task_status-state_text, move_to_enters, enter_state-Entered,
}
use nexus_grid_grid.Scheduler.Release.{
  Pass, gate_on, deps_completed, put_row, queue_task, gate_task, release_one,
}

waiting_to :
    (now : ℕ) (task : Task) (target : TaskState) (reason : Reason) (node : Node)
    → task.status ≡ waiting
    → can_move waiting target ≡ true
    → waiting ≢ target
    → set_task_status now task (state_text target) reason false node
      ≡ done (enter_state now task target reason node)
waiting_to now task target reason node w legal n =
    rw (set_task_status-state_text now task target reason false node)
      (move_to_enters now task target reason false node (rw w legal) (λ e. n (sym w ∙ e)))

enter_state-queue :
    (now : ℕ) (task : Task) (target : TaskState) (reason : Reason) (node : Node)
    → (enter_state now task target reason node).1.task_queue ≡ node.task_queue
unfolding enter_state publish forget_strikes
enter_state-queue now task target reason node = ground arith

-- What one step of a pass leaves behind: the row, the queue and the counts.
pub record Left (before after : Pass) (task : Task) (target : TaskState) : Type 0 where
  pub row : Task
  pub rows : after.rows ≡ put_row row before.rows
  pub same_id : row.id ≡ task.id
  pub status : row.status ≡ target
  pub queue :
      after.node.task_queue
      ≡ before.node.task_queue ++ (if target == queued then task.id ∷ [] else [])
  pub queued_now : after.queued_now ≡ before.queued_now + (if target == queued then 1 else 0)
  pub gated_now :
      after.gated_now ≡ before.gated_now + (if target == awaiting_approval then 1 else 0)

pub queue_task-Left :
    (now : ℕ) (task : Task) (reason : Reason) (metric : String) (pass : Pass)
    → set_task_status now task (state_text queued) reason false pass.node
      ≡ done (enter_state now task queued reason pass.node)
    → Left pass (queue_task now task reason metric pass) task queued
unfolding queue_task enqueue_task incr_metric TaskState-discrete
queue_task-Left now task reason metric pass moved =
    let entered = enter_state-Entered now task queued reason pass.node in
    rw moved (record {
      row = (enter_state now task queued reason pass.node).0;
      rows = refl;
      same_id = entered.identity;
      status = entered.status;
      queue = ap (λ q. q ++ task.id ∷ []) (enter_state-queue now task queued reason pass.node);
      queued_now = refl;
      gated_now = omega arith;
    })

gate_task-Left :
    (now : ℕ) (task : Task) (pass : Pass)
    → task.status ≡ waiting
    → Left pass (gate_task now task pass) task awaiting_approval
unfolding gate_task TaskState-discrete can_move
gate_task-Left now task pass w =
    let reason = dependencies_gated task.depends_on in
    let entered = enter_state-Entered now task awaiting_approval reason pass.node in
    rw (waiting_to now task awaiting_approval reason pass.node w refl (λ e. cc)) (record {
      row = (enter_state now task awaiting_approval reason pass.node).0;
      rows = refl;
      same_id = entered.identity;
      status = entered.status;
      queue = enter_state-queue now task awaiting_approval reason pass.node ∙ sym (append-nil _);
      queued_now = omega arith;
      gated_now = refl;
    })

-- The state that the workflow rules give a waiting task, if they move it at all.
unfoldable pub decision : Settings → List Task → Task → Option TaskState
decision settings rows task =
    let deps = csv_items task.depends_on in
    if is_empty deps || (deps_completed rows deps && not (gate_on settings task))
    then some queued
    else if deps_completed rows deps
    then some awaiting_approval
    else none

abbrev pub Follows : Pass → Pass → Task → Option TaskState → Type 0
Follows before after task none = after ≡ before
Follows before after task (some target) = Left before after task target

-- A step of the pass follows the code's own tests on the dependencies.
pub release_one-decision :
    (settings : Settings) (now : ℕ) (task : Task) (pass : Pass)
    → task.status ≡ waiting
    → Follows pass (release_one settings now task pass) task (decision settings pass.rows task)
unfolding release_one decision can_move
release_one-decision settings now task pass w =
    let deps = csv_items task.depends_on in
    let queued_for = λ (reason : Reason).
      queue_task-Left now task reason "tasks_dispatched" pass
        (waiting_to now task queued reason pass.node w refl (λ e. cc)) in
    elim (Bool-cases (is_empty deps)) [
      | inl free ↦ rw (free) (queued_for (text "No dependencies remaining."))
      | inr bound ↦ rw bound (elim (Bool-cases (deps_completed pass.rows deps)) [
        | inl met ↦ rw met (elim (Bool-cases (gate_on settings task)) [
          | inl gated ↦ rw gated (gate_task-Left now task pass w)
          | inr open_gate ↦ rw open_gate (queued_for (dependencies_met task.depends_on))
        ])
        | inr unmet ↦ rw unmet refl
      ])
    ]
