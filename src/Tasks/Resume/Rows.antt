-- ===== src/Tasks/Resume/Rows.antt =====
-- What the two loops of a resume write to the rows.
use mathlib.Core.Option
use nexus_grid_grid.Prelude.Dicts
use nexus_grid_grid.Prelude.{
  ℕ, true, ◌≡◌, refl, ap, inl, inr, List, [], ◌∷◌, Option, none, some, String, contains,
  if◌then◌else◌, ◌==◌, text_key, nat_eq, arith, Option-cases, beq_comm,
}
use nexus_grid_grid.Tasks.State.{
  TaskState, waiting, queued, state_text, state_key, TaskState-discrete,
}
use nexus_grid_grid.Tasks.Env.{Task, Reason, text}
use nexus_grid_grid.Tasks.Node.{Node}
use nexus_grid_grid.Tasks.Lifecycle.{move_to, set_task_status}
use nexus_grid_grid.Tasks.Lifecycle.Transitions.{
  set_task_status-state_text, move_to_enters, enter_state-Entered,
}
use nexus_grid_grid.Tasks.Resume.{Table, Resume, requeue_step, rearm_step, step_at, each_step}

-- What the plan reads of a task, and its worker.
pub record View : Type 0 where
  pub status : TaskState
  pub worker : Option String
  pub parent_id : String
  pub depends_on : String

abbrev pub view : Task → View
view task = record {
  status = task.status;
  worker = task.worker;
  parent_id = task.parent_id;
  depends_on = task.depends_on;
}

unfoldable pub view_at : String → Table → Option View
view_at id rows = Option.map view (Dicts.get id rows)

-- A forced request succeeds, sets the status, and leaves the rest of the view.
pub forced :
    (now : ℕ) (task : Task) (target : TaskState) (reason : Reason) (node : Node)
    → ((set_task_status now task (state_text target) reason true node).ok ≡ true)
      × (view (set_task_status now task (state_text target) reason true node).task
          ≡ record (view task) { status = target })
unfolding move_to
forced now task target reason node =
    rw set_task_status-state_text (elim (TaskState-discrete task.status target) [
      | yes same ↦ ground (arith, same)
      | no differs ↦
          let moved = move_to_enters now task target reason true node refl differs in
          let entered = enter_state-Entered now task target reason node in
          rw moved (
            refl,
            ground (arith, entered.status, entered.worker, entered.parent, entered.dependencies),
          )
    ])

-- A step of one of the two loops writes the row of its id, and gives it a view.
pub record Writes (step : String → Task → Resume → Resume) (change : View → View) : Type 0 where
  pub writes :
      (id j : String) (task : Task) (r : Resume)
      → view_at j (step id task r).rows
        ≡ (if id == j then some (change (view task)) else view_at j r.rows)

unfoldable pub requeued_view : View → View
requeued_view v = record v { status = queued; worker = none }

unfoldable pub rearmed_view : View → View
rearmed_view v = record v { status = waiting }

pub requeued_twice : (v : View) → requeued_view (requeued_view v) ≡ requeued_view v
unfolding requeued_view
requeued_twice v = refl

pub rearmed_twice : (v : View) → rearmed_view (rearmed_view v) ≡ rearmed_view v
unfolding rearmed_view
rearmed_twice v = refl

pub requeue_step-Writes : (now : ℕ) → Writes (requeue_step now) requeued_view
unfolding requeue_step view_at requeued_view
requeue_step-Writes now = record {
  writes = λ id j task r.
      let out =
        set_task_status now task (state_text queued) (text "Workflow resume.") true r.node in
      let f = forced now task queued (text "Workflow resume.") r.node in
      ground (arith, f.0, f.1, Dicts.get-insert id j (record out.task { worker = none }) r.rows);
}

pub rearm_step-Writes : (now : ℕ) → Writes (rearm_step now) rearmed_view
unfolding rearm_step view_at rearmed_view
rearm_step-Writes now = record {
  writes = λ id j task r.
      let why = text "Workflow resume — re-armed." in
      let out = set_task_status now task (state_text waiting) why true r.node in
      let f = forced now task waiting why r.node in
      ground (arith, f.0, f.1, Dicts.get-insert id j out.task r.rows);
}

pub view_at-step_at :
    (step : String → Task → Resume → Resume) (change : View → View)
    → Writes step change
    → (id j : String) (r : Resume)
    → view_at j (step_at step id r).rows
      ≡ (if id == j then Option.map change (view_at j r.rows) else view_at j r.rows)
unfolding step_at view_at
view_at-step_at step change w id j r = elim (Option-cases (Dicts.get id r.rows)) [
  | inl e ↦ rw (e, step_at) (ground (arith, e, Dicts.get_same id j r.rows))
  | inr (task, e) ↦
      rw (e, step_at) (ground (arith, e, w.writes id j task r, Dicts.get_same id j r.rows))
]

pub map_twice :
    (change : View → View)
    → ((v : View) → change (change v) ≡ change v)
    → (o : Option View) → Option.map change (Option.map change o) ≡ Option.map change o
map_twice change twice none = refl
map_twice change twice (some v) = ap some (twice v)

-- A loop changes the rows of its ids, however often an id stands in the list.
pub view_at-each_step :
    (step : String → Task → Resume → Resume) (change : View → View)
    → Writes step change
    → ((v : View) → change (change v) ≡ change v)
    → (ids : List String) (j : String) (r : Resume)
    → view_at j (each_step step ids r).rows
      ≡ (if contains ids j then Option.map change (view_at j r.rows) else view_at j r.rows)
unfolding each_step
view_at-each_step step change w twice [] j r = refl
view_at-each_step step change w twice (id ∷ ids) j r = ground (
  arith,
  view_at-each_step step change w twice ids j (step_at step id r),
  view_at-step_at step change w id j r,
  map_twice change twice (view_at j r.rows),
  beq_comm id j,
)
