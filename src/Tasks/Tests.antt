-- ===== src/Tasks/Tests.antt =====
-- Runs on small inputs, and the theorems on tasks applied to them.
use mathlib.Core.Option
use nexus_grid_grid.Prelude.Dicts
use nexus_grid_grid.Prelude.{
  ◌+◌, ◌≤◌, max, true, false, not, ◌≡◌, ◌≢◌, refl, List, [], ◌∷◌, ◌++◌, none, some, String, select,
  if◌then◌else◌, ltb, ◌==◌, nat_eq, text_key, arith, ne_of_beq, contains,
}
use nexus_grid_grid.Tasks.State.{
  waiting, queued, processing, serving, completed, failed, can_move, is_terminal, state_text,
  state_of_text, state_key,
}
use nexus_grid_grid.Tasks.State.Graph.{Run, start, move}
use nexus_grid_grid.Tasks.Env.{Task, LogLine, RetryPolicy, parse_task_env, get_retry_policy}
use nexus_grid_grid.Tasks.Node.{status_changed}
use nexus_grid_grid.Tasks.Lifecycle.{
  set_task_status, enter_state, add_task_timeline_event, move_to, try_schedule_retry,
}
use nexus_grid_grid.Tasks.Lifecycle.Transitions.{Entered, set_task_status_enters}
use nexus_grid_grid.Tasks.Lifecycle.History.{
  Request, request_all, Recorded, walk, request_all-Recorded,
}
use nexus_grid_grid.Tasks.Lifecycle.Ran.{entered, request_all_completed}
use nexus_grid_grid.Tasks.Lifecycle.RetryBound.{Action, retry, set_status, act_all, act_all_bound}
use nexus_grid_grid.Tasks.Lease.{lease_ttl, set_task_lease, task_lease_expired, task_lease_owner}
use nexus_grid_grid.Tasks.Lease.Deadline.{refresh_at, last_time, lease_deadline}
use nexus_grid_grid.Tasks.Resume.{Table, resume_workflow}
use nexus_grid_grid.Tasks.Resume.Rows.{view_at}
use nexus_grid_grid.Tasks.Resume.Lists.{resumed_view}
use nexus_grid_grid.Tasks.Resume.Resumed.{resume_workflow-view}
use nexus_grid_grid.Tasks.Samples.{node, settings, task_in, running, why}

program : Unit {0}
unfolding set_task_status move_to try_schedule_retry can_move get_retry_policy state_of_text
program = tt

done-Run : Run waiting (waiting ∷ queued ∷ processing ∷ completed ∷ []) completed
unfolding can_move
done-Run = move {old = processing} (move {old = queued} (move start refl) refl) refl

abbrev policy : RetryPolicy
policy = record { retry_max = 0; retry_count = 1; backoff_base = 5 }

set_task_status_enters_example :
    ((set_task_status 10 running (state_text completed) why false node).ok ≡ true)
    × Entered 10 running
        (set_task_status 10 running (state_text completed) why false node).task
        completed
        why
    × ((set_task_status 10 running (state_text completed) why false node).node.events
        ≡ node.events ++ status_changed "t1" processing completed why ∷ [])
    × ((set_task_status 10 running (state_text completed) why false node).node.consent_strikes ≡ (
        if is_terminal completed
        then select (λ strike. not (strike.0.0 == "t1")) node.consent_strikes
        else node.consent_strikes))
unfolding can_move
set_task_status_enters_example =
    set_task_status_enters 10 running completed why false node refl (ground arith)

abbrev requests : List Request
requests =
    record { at = 1; target = "PROCESSING"; reason = why }
    ∷ record { at = 2; target = "nonsense"; reason = why }
    ∷ record { at = 3; target = "failed"; reason = why }
    ∷ []

request_all-Recorded_example :
    ((request_all requests (task_in "t1" queued "") node).0.status ≡ walk queued requests)
    × Recorded (task_in "t1" queued "") (request_all requests (task_in "t1" queued "") node).0
request_all-Recorded_example = request_all-Recorded requests (task_in "t1" queued "") node

abbrev three_requests : List Request
three_requests =
    record { at = 1; target = "processing"; reason = why }
    ∷ record { at = 2; target = "waiting"; reason = why }
    ∷ record { at = 3; target = "COMPLETED"; reason = why }
    ∷ []

abbrev asked : Task
asked = task_in "t1" queued ""

request_all_completed_example :
    (lines : List LogLine) × ((request_all three_requests asked node).0.logs ≡ asked.logs ++ lines)
    × (contains (entered lines) processing ≡ true)
unfolding program request_all enter_state add_task_timeline_event
request_all_completed_example =
    request_all_completed three_requests asked node (ne_of_beq queued processing refl)
      (ne_of_beq queued serving refl) (ne_of_beq queued completed refl) refl

abbrev actions : List Action
actions =
    retry 100 "boom" (some "w1")
    ∷ set_status 200 "queued" why false
    ∷ retry 300 "boom" none
    ∷ retry 400 "boom" none
    ∷ []

act_all_bound_example :
    ((get_retry_policy settings.retry_backoff_base_sec
        (act_all settings actions running node).1).retry_count
      ≡ (get_retry_policy settings.retry_backoff_base_sec running).retry_count
        + (act_all settings actions running node).0)
    × ((get_retry_policy settings.retry_backoff_base_sec running).retry_count
          + (act_all settings actions running node).0
        ≤ max
            (get_retry_policy settings.retry_backoff_base_sec running).retry_count
            (get_retry_policy settings.retry_backoff_base_sec running).retry_max)
act_all_bound_example = act_all_bound settings actions running node

w1_named : ◌≢◌ {A = String} "w1" ""
w1_named = ne_of_beq "w1" "" refl

lease_deadline_example :
    (task_lease_expired 99999
        (refresh_at settings (60 ∷ 40 ∷ []) (set_task_lease settings "l" 50 running "w1"))
      ≡ ltb (last_time 50 (60 ∷ 40 ∷ []) + lease_ttl settings (parse_task_env running)) 99999)
    × (task_lease_owner
          (refresh_at settings (60 ∷ 40 ∷ []) (set_task_lease settings "l" 50 running "w1"))
        ≡ "w1")
lease_deadline_example =
    lease_deadline settings "l" 50 99999 (60 ∷ 40 ∷ []) running "w1" (omega arith) (omega arith)

abbrev stalled : Table
stalled = ("t1", task_in "t1" completed "") ∷ ("t2", task_in "t2" failed "t1") ∷ []

resume_workflow-view_example :
    view_at "t2" (resume_workflow 5 "wf" stalled node).rows
    ≡ Option.map (resumed_view "wf" stalled) (view_at "t2" stalled)
unfolding Dicts.get
resume_workflow-view_example = resume_workflow-view 5 "wf" "t2" stalled node (refl, (refl, tt))
