-- ===== src/Tasks/Resume/Resumed.antt =====
-- What a resume makes of every step.
use mathlib.Core.Option
use nexus_grid_grid.Prelude.Dicts
use nexus_grid_grid.Prelude.{
  ℕ, ◌≡◌, ◌∙◌, inl, inr, List, [], some, String, Dict, contains, all, if◌then◌else◌, text_key,
  nat_eq, arith, Option-cases,
}
use nexus_grid_grid.Prelude.Text.{csv_items}
use nexus_grid_grid.Tasks.State.{TaskState, state_key}
use nexus_grid_grid.Tasks.Node.{Node}
use nexus_grid_grid.Tasks.Resume.{
  Table, Plan, statuses, is_completed, plan_each, plan_workflow_resume, Resume, requeue_step,
  rearm_step, each_step, steps_of, resume_rows, resume_workflow,
}
use nexus_grid_grid.Tasks.Resume.Rows.{
  View, view_at, requeued_view, rearmed_view, requeued_twice, rearmed_twice, requeue_step-Writes,
  rearm_step-Writes, view_at-each_step,
}
use nexus_grid_grid.Tasks.Resume.Lists.{
  is_done, resumed_view, is_completed-is_done, all_same, to_requeue, to_rearm, plan_each_lists,
}

-- The plan's test of a step, under the statuses of the workflow, is whether each dependency is done.
ready_same :
    (workflow_id : String) (rows : Table) (deps : List String)
    → Dicts.HasDistinctKeys rows
    → all (is_completed (statuses (steps_of workflow_id rows) [])) deps
      ≡ all (is_done workflow_id rows) deps
ready_same workflow_id rows deps h =
    all_same (is_completed (statuses (steps_of workflow_id rows) [])) (is_done workflow_id rows)
      deps (λ d. is_completed-is_done workflow_id d rows h)

-- Both loops on the view of a row, by whether the row is on the lists.
both_loops :
    (now : ℕ) (id : String) (plan : Plan) (r : Resume)
    → view_at id
        (each_step (rearm_step now) plan.rearm (each_step (requeue_step now) plan.requeue r)).rows
      ≡ (let first =
            if contains plan.requeue id
            then Option.map requeued_view (view_at id r.rows)
            else view_at id r.rows in
          if contains plan.rearm id then Option.map rearmed_view first else first)
both_loops now id plan r = ground (
  arith,
  view_at-each_step (rearm_step now) rearmed_view (rearm_step-Writes now) rearmed_twice plan.rearm
      id (each_step (requeue_step now) plan.requeue r),
  view_at-each_step (requeue_step now) requeued_view (requeue_step-Writes now) requeued_twice
      plan.requeue id r,
)

listed_once :
    (status : Dict String TaskState) (workflow_id : String) (rows : Table) (v : View)
    → all (is_completed status) (csv_items v.depends_on)
      ≡ all (is_done workflow_id rows) (csv_items v.depends_on)
    → (let first = if to_requeue status workflow_id v then some (requeued_view v) else some v in
        if to_rearm status workflow_id v then Option.map rearmed_view first else first)
      ≡ some (resumed_view workflow_id rows v)
unfolding to_requeue to_rearm resumed_view requeued_view rearmed_view
listed_once status workflow_id rows v h = ground (arith, h)

-- A resume requeues, with no worker, each failed, disrupted or cancelled step of the workflow whose
-- dependencies are all completed steps of the workflow, and sets the other such steps to wait; every
-- other row keeps its status, its worker, its workflow and its dependencies. The table has one row for
-- each id.
pub resume_workflow-view :
    (now : ℕ) (workflow_id id : String) (rows : Table) (node : Node)
    → Dicts.HasDistinctKeys rows
    → view_at id (resume_workflow now workflow_id rows node).rows
      ≡ Option.map (resumed_view workflow_id rows) (view_at id rows)
unfolding resume_workflow resume_rows plan_workflow_resume
resume_workflow-view now workflow_id id rows node h =
    let status = statuses (steps_of workflow_id rows) [] in
    let plan = plan_each status (steps_of workflow_id rows) in
    let lists = plan_each_lists workflow_id id status rows h in
    let start : Resume = record { rows = rows; node = node; requeued = []; rearmed = [] } in
    both_loops now id plan start ∙ (elim (Option-cases (view_at id rows)) [
      | inl e ↦ ground (arith, e, lists)
      | inr (v, e) ↦ ground (
        arith,
        e,
        lists,
        listed_once status workflow_id rows v
            (ready_same workflow_id rows (csv_items v.depends_on) h),
      )
    ])
