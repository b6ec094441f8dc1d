-- ===== src/Tasks/Resume.antt =====
-- nexus/tasks/workflow_resume.py: the failed steps of a workflow are queued again where their
-- dependencies are completed, and wait again elsewhere. The task table is a dictionary by id.
pub mod Rows
pub mod Lists
pub mod Resumed
use nexus_grid_grid.Prelude.Dicts
use nexus_grid_grid.Prelude.{
  ℕ, Bool, true, false, not, ◌&&◌, List, [], ◌∷◌, ◌++◌, Option, none, some, String, Dict, map,
  select, contains, all, is_empty, length, if◌then◌else◌, ◌==◌, text_key,
}
use nexus_grid_grid.Prelude.Text.{csv_items}
use nexus_grid_grid.Tasks.State.{
  TaskState, waiting, queued, completed, failed, disrupted, cancelled, state_text, state_key,
}
use nexus_grid_grid.Tasks.Env.{Task, Reason, text}
use nexus_grid_grid.Tasks.Node.{Node, enqueue_task}
use nexus_grid_grid.Tasks.Lifecycle.{Outcome, set_task_status}

abbrev pub Table : Type 0
Table = Dict String Task

-- `_FAILED`
unfoldable pub failed_states : List TaskState
failed_states = failed ∷ disrupted ∷ cancelled ∷ []

pub record Step : Type 0 where
  pub id : String
  pub status : TaskState
  pub depends_on : List String

pub record Plan : Type 0 where
  pub requeue : List String
  pub rearm : List String

unfoldable pub statuses : List Step → Dict String TaskState → Dict String TaskState
statuses [] status = status
statuses (s ∷ ss) status = statuses ss (Dicts.insert s.id s.status status)

unfoldable pub is_completed : Dict String TaskState → String → Bool
is_completed status dep = elim (Dicts.get dep status) [ none ↦ false | some s ↦ s == completed ]

-- The body of the loop of `plan_workflow_resume`: on which list a step goes, by whether it stalled
-- and whether its dependencies are completed.
unfoldable pub place : String → Bool → Bool → Plan → Plan
place id stalled ready plan =
    if not stalled
    then plan
    else if ready
    then record plan { requeue = id ∷ plan.requeue }
    else record plan { rearm = id ∷ plan.rearm }

unfoldable pub plan_each : Dict String TaskState → List Step → Plan
unfolding is_completed failed_states place
plan_each status [] = record { requeue = []; rearm = [] }
plan_each status (s ∷ ss) =
    place s.id (contains failed_states s.status) (all (is_completed status) s.depends_on)
      (plan_each status ss)

unfoldable pub plan_workflow_resume : List Step → Plan
unfolding statuses plan_each
plan_workflow_resume steps = plan_each (statuses steps []) steps

-- The table, the shared state, and the two lists returned.
pub record Resume : Type 0 where
  pub rows : Table
  pub node : Node
  pub requeued : List String
  pub rearmed : List String

unfoldable pub requeue_step : ℕ → String → Task → Resume → Resume
requeue_step now id task r =
    let out = set_task_status now task (state_text queued) (text "Workflow resume.") true r.node in
    if out.ok
    then record r {
      rows = Dicts.insert id (record out.task { worker = none }) r.rows;
      node = out.node;
      requeued = r.requeued ++ id ∷ [];
    }
    else r

unfoldable pub rearm_step : ℕ → String → Task → Resume → Resume
rearm_step now id task r =
    let out =
      set_task_status now task (state_text waiting) (text "Workflow resume — re-armed.") true
        r.node in
    if out.ok
    then record r {
      rows = Dicts.insert id out.task r.rows;
      node = out.node;
      rearmed = r.rearmed ++ id ∷ [];
    }
    else r

-- The row of an id is in the table, since the plan was made from it.
unfoldable pub step_at : (String → Task → Resume → Resume) → String → Resume → Resume
step_at step id r = elim (Dicts.get id r.rows) [ none ↦ r | some task ↦ step id task r ]

unfoldable pub each_step : (String → Task → Resume → Resume) → List String → Resume → Resume
unfolding step_at
each_step step [] r = r
each_step step (id ∷ ids) r = each_step step ids (step_at step id r)

unfoldable pub enqueue_all : List String → Node → Node
enqueue_all [] node = node
enqueue_all (id ∷ ids) node = enqueue_all ids (enqueue_task id node)

unfoldable pub steps_of : String → Table → List Step
unfolding csv_items
steps_of workflow_id [] = []
steps_of workflow_id ((id, task) ∷ rows) =
    let rest = steps_of workflow_id rows in
    if task.parent_id == workflow_id
    then record { id = id; status = task.status; depends_on = csv_items task.depends_on } ∷ rest
    else rest

-- Both loops, before the ids are enqueued.
unfoldable pub resume_rows : ℕ → String → Table → Node → Resume
unfolding plan_workflow_resume steps_of each_step requeue_step rearm_step
resume_rows now workflow_id rows node =
    let plan = plan_workflow_resume (steps_of workflow_id rows) in
    each_step (rearm_step now) plan.rearm (
      each_step (requeue_step now) plan.requeue
        (record { rows = rows; node = node; requeued = []; rearmed = [] }))

unfoldable pub resume_workflow : ℕ → String → Table → Node → Resume
unfolding resume_rows enqueue_all
resume_workflow now workflow_id rows node =
    let after = resume_rows now workflow_id rows node in
    record after { node = enqueue_all after.requeued after.node }
