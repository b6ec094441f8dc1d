-- ===== src/Scheduler/Release/Requeue.antt =====
-- A retried task waits out its back-off, and is queued again by the first sweep after it.
use nexus_grid_grid.Prelude.{
  ℕ, ◌<◌, true, false, ◌≡◌, ◌≢◌, refl, sym, ◌∙◌, none, some, String, ltb, lt→ltb, Bool-cases, inl,
  inr, if◌then◌else◌,
}
use nexus_grid_grid.Tasks.State.{queued, retrying, can_move}
use nexus_grid_grid.Tasks.Env.{Task, text, task_retry_at, get_retry_policy}
use nexus_grid_grid.Tasks.Node.{Node, Settings}
use nexus_grid_grid.Tasks.Lifecycle.{try_schedule_retry}
use nexus_grid_grid.Tasks.Lifecycle.Transitions.{set_task_status-state_text, move_to_enters}
use nexus_grid_grid.Tasks.Lifecycle.Retries.{try_schedule_retry-policy, retry_time}
use nexus_grid_grid.Scheduler.Release.{Pass, requeue_one}
use nexus_grid_grid.Scheduler.Release.Decision.{Follows, queue_task-Left}

-- A sweep leaves a retrying task alone before its time, and queues it, once, from then on.
pub requeue_one-Follows :
    (now : ℕ) (task : Task) (pass : Pass)
    → task.status ≡ retrying
    → Follows pass
        (requeue_one now task pass)
        task
        (if ltb now (task_retry_at task) then none else some queued)
unfolding requeue_one can_move
requeue_one-Follows now task pass r = elim (Bool-cases (ltb now (task_retry_at task))) [
  | inl early ↦ rw early refl
  | inr due ↦ rw due (
      queue_task-Left now task (text "Retry backoff elapsed.") "tasks_requeued" pass (
        set_task_status-state_text now task queued (text "Retry backoff elapsed.") false pass.node
        ∙ move_to_enters now task queued (text "Retry backoff elapsed.") false pass.node (rw r refl)
            (λ e. retrying_ne (sym r ∙ e))))
]
  where
    retrying_ne : retrying ≢ queued
    retrying_ne e = cc

-- After a granted retry that blames a worker, no sweep queues the task before the back-off, the
-- base times two to the number of earlier retries in seconds, has passed since the retry was granted.
pub retry_waits :
    (settings : Settings) (granted_at now : ℕ) (task : Task) (reason : String) (w : String)
    (node : Node) (pass : Pass)
    → (try_schedule_retry settings granted_at task reason (some w) node).ok ≡ true
    → now < retry_time granted_at (get_retry_policy settings.retry_backoff_base_sec task)
    → requeue_one now (try_schedule_retry settings granted_at task reason (some w) node).task pass
      ≡ pass
unfolding requeue_one
retry_waits settings granted_at now task reason w node pass h early =
    let stored = (try_schedule_retry-policy settings granted_at task reason (some w) node h).1 in
    rw (stored, lt→ltb _ _ early)
