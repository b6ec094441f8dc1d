-- ===== src/Tasks/Lifecycle/Retries.antt =====
-- What `try_schedule_retry` does, and why a task is retried only so often.
use nexus_grid_grid.Prelude.{
  ℕ, ◌+◌, ◌*◌, ◌^◌, ◌<◌, ◌∙◌, Bool, true, ◌≡◌, refl, Option, none, some, String, leb, ltb, text_key,
  nat_eq, arith, Bool-cases, Option-cases, inl, inr,
}
use nexus_grid_grid.Tasks.State.{TaskState, retrying, state_of_text, state_text, state_key}
use nexus_grid_grid.Tasks.Env.{
  Task, TaskEnv, Reason, RetryPolicy, seconds, parse_task_env, get_retry_policy, set_retry_policy,
  task_retry_at,
}
use nexus_grid_grid.Tasks.Env.Retry.{get-set_retry_policy}
use nexus_grid_grid.Tasks.Node.{Node, Settings}
use nexus_grid_grid.Tasks.Lifecycle.{
  enter_state, move_to, set_task_status, stamp_queued, stamp_started, stamp_completed,
  add_task_timeline_event, schedule_retry, try_schedule_retry, note_failed_worker, truthy,
}

-- The four keys of the retry policy, as they stand in the environment.
pub record SamePolicy (before after : Task) : Type 0 where
  pub maximum : (parse_task_env after).retry_max ≡ (parse_task_env before).retry_max
  pub count : (parse_task_env after).retry_count ≡ (parse_task_env before).retry_count
  pub base : (parse_task_env after).retry_backoff_base ≡ (parse_task_env before).retry_backoff_base
  pub next : (parse_task_env after).next_retry_at ≡ (parse_task_env before).next_retry_at
  pub blamed : (parse_task_env after).failed_workers ≡ (parse_task_env before).failed_workers

stamps_policy :
    (now : ℕ) (target : TaskState) (env : TaskEnv) {after : TaskEnv}
    → stamp_completed now target (stamp_started now target (stamp_queued now target env)) ≡ after
    → (after.retry_max ≡ env.retry_max)
      × (after.retry_count ≡ env.retry_count)
      × (after.retry_backoff_base ≡ env.retry_backoff_base)
      × (after.next_retry_at ≡ env.next_retry_at)
      × (after.failed_workers ≡ env.failed_workers)
unfolding stamp_queued stamp_started stamp_completed
stamps_policy now target env h = ground arith

enter_state-SamePolicy :
    (now : ℕ) (task : Task) (target : TaskState) (reason : Reason) (node : Node)
    → SamePolicy task (enter_state now task target reason node).0
unfolding enter_state add_task_timeline_event
enter_state-SamePolicy now task target reason node =
    let kept = stamps_policy now target _ refl in
    record { maximum = kept.0; count = kept.1; base = kept.2; next = kept.3; blamed = kept.4 }

-- No status change touches the retry policy or the list of failed workers.
pub set_task_status-SamePolicy :
    (now : ℕ) (task : Task) (new_status : String) (reason : Reason) (force : Bool) (node : Node)
    → SamePolicy task (set_task_status now task new_status reason force node).task
unfolding set_task_status move_to
set_task_status-SamePolicy now task new_status reason force node =
    elim (Option-cases (state_of_text new_status)) [
      | inl unknown ↦ rw (unknown, set_task_status) (ground arith)
      | inr (target, known) ↦
          rw (known, set_task_status)
            (ground (arith, enter_state-SamePolicy now task target reason node))
    ]

pub policy_of_same :
    (base : ℕ) (before after : Task)
    → SamePolicy before after
    → (get_retry_policy base after ≡ get_retry_policy base before)
      × (task_retry_at after ≡ task_retry_at before)
unfolding get_retry_policy task_retry_at
policy_of_same base before after s = ground arith

note_failed_worker-policy :
    (base : ℕ) (task : Task) (worker : String)
    → (get_retry_policy base (note_failed_worker task worker) ≡ get_retry_policy base task)
      × (task_retry_at (note_failed_worker task worker) ≡ task_retry_at task)
unfolding get_retry_policy task_retry_at note_failed_worker
note_failed_worker-policy base task worker = (refl, refl)

abbrev pub counted : RetryPolicy → RetryPolicy
counted p = record p { retry_count = p.retry_count + 1 }

abbrev pub retry_time : ℕ → RetryPolicy → ℕ
retry_time now p = now + seconds (p.backoff_base * 2 ^ p.retry_count)

stored_policy :
    (base now : ℕ) (task : Task) (p : RetryPolicy)
    → 0 < p.retry_max
    → 0 < p.backoff_base
    → (get_retry_policy base (set_retry_policy task (counted p) (some (retry_time now p)))
        ≡ counted p)
      × (task_retry_at (set_retry_policy task (counted p) (some (retry_time now p)))
          ≡ retry_time now p)
stored_policy base now task p h k =
    let back = get-set_retry_policy base task (counted p) (retry_time now p) k in
    (ground (arith, back.0), back.1)

schedule_retry-policy :
    (settings : Settings) (base now : ℕ) (task : Task) (p : RetryPolicy) (reason : String)
    (failed_worker : Option String) (node : Node)
    → 0 < p.retry_max
    → 0 < p.backoff_base
    → (get_retry_policy base (schedule_retry settings now task p reason failed_worker node).0
        ≡ counted p)
      × (task_retry_at (schedule_retry settings now task p reason failed_worker node).0
          ≡ retry_time now p)
unfolding schedule_retry
schedule_retry-policy settings base now task p reason none node h k =
    let stored = stored_policy base now task p h k in
    let same =
      policy_of_same base _ _
        (set_task_status-SamePolicy now _ (state_text retrying) _ true node) in
    (same.0 ∙ stored.0, same.1 ∙ stored.1)
schedule_retry-policy settings base now task p reason (some w) node h k =
    let stored = stored_policy base now task p h k in
    let noted =
      note_failed_worker-policy base (set_retry_policy task (counted p) (some (retry_time now p)))
        w in
    let same =
      policy_of_same base _ _
        (set_task_status-SamePolicy now _ (state_text retrying) _ true node) in
    (same.0 ∙ noted.0 ∙ stored.0, same.1 ∙ noted.1 ∙ stored.1)

policy_base_pos : (base : ℕ) (task : Task) → 0 < (get_retry_policy base task).backoff_base
unfolding get_retry_policy
policy_base_pos base task = omega arith

-- A retry is granted exactly while fewer retries than the maximum have been made.
pub try_schedule_retry_ok :
    (settings : Settings) (now : ℕ) (task : Task) (reason : String) (failed_worker : Option String)
    (node : Node)
    → (try_schedule_retry settings now task reason failed_worker node).ok
      ≡ ltb
          (get_retry_policy settings.retry_backoff_base_sec task).retry_count
          (get_retry_policy settings.retry_backoff_base_sec task).retry_max
unfolding try_schedule_retry
try_schedule_retry_ok settings now task reason failed_worker node = ground arith

-- A granted retry counts one more, keeps the maximum and the base, and sets the next attempt to
-- the time of the call plus the base times two to the number of retries made before, in seconds.
pub try_schedule_retry-policy :
    (settings : Settings) (now : ℕ) (task : Task) (reason : String) (failed_worker : Option String)
    (node : Node)
    → (try_schedule_retry settings now task reason failed_worker node).ok ≡ true
    → (get_retry_policy settings.retry_backoff_base_sec
          (try_schedule_retry settings now task reason failed_worker node).task
        ≡ counted (get_retry_policy settings.retry_backoff_base_sec task))
      × (task_retry_at (try_schedule_retry settings now task reason failed_worker node).task
          ≡ retry_time now (get_retry_policy settings.retry_backoff_base_sec task))
unfolding try_schedule_retry
try_schedule_retry-policy settings now task reason failed_worker node h =
    let base = settings.retry_backoff_base_sec in
    let p = get_retry_policy base task in
    elim (Bool-cases (leb p.retry_max p.retry_count)) [
      | inl over ↦ absurd (ground (arith, over))
      | inr under ↦ rw under (
          schedule_retry-policy settings base now task p reason (truthy failed_worker) node
            (ground arith) (policy_base_pos base task))
    ]
