-- ===== src/Tasks/Lifecycle/RetryBound.antt =====
-- Retries among any other status changes, and the worker that a retry blames.
use mathlib.Core.Option
use nexus_grid_grid.Prelude.Dicts
use nexus_grid_grid.Prelude.{
  ℕ, ◌+◌, ◌≤◌, max, Bool, true, false, ◌≡◌, ◌≢◌, refl, List, [], ◌∷◌, Option, some, String,
  contains, contains-snoc, if◌then◌else◌, leb, text_key, arith, beq_false, Bool-cases, inl, inr,
}
use nexus_grid_grid.Tasks.State.{retrying, state_text}
use nexus_grid_grid.Tasks.Env.{
  Task, Reason, RetryPolicy, get_retry_policy, set_retry_policy, parse_task_env,
}
use nexus_grid_grid.Tasks.Node.{Node, Settings, incr_metric}
use nexus_grid_grid.Tasks.Lifecycle.{
  Outcome, set_task_status, schedule_retry, try_schedule_retry, note_failed_worker, cool_down,
  move_to,
}
use nexus_grid_grid.Tasks.Lifecycle.Retries.{
  set_task_status-SamePolicy, policy_of_same, try_schedule_retry_ok, counted, retry_time,
  try_schedule_retry-policy,
}
use nexus_grid_grid.Tasks.Lifecycle.Transitions.{set_task_status-state_text, enter_state-Entered}

-- What the master does to a task over its life, as far as retries go.
pub data Action : Type 0 where
  retry : (at : ℕ) (reason : String) (failed_worker : Option String) → Action
  set_status : (at : ℕ) (target : String) (reason : Reason) (force : Bool) → Action

pub act : Settings → Action → Task → Node → Outcome
act settings (retry at reason failed_worker) task node =
    try_schedule_retry settings at task reason failed_worker node
act settings (set_status at target reason force) task node =
    set_task_status at task target reason force node

abbrev pub granted : Settings → Action → Task → Node → ℕ
granted settings (retry at reason failed_worker) task node =
    if (try_schedule_retry settings at task reason failed_worker node).ok then 1 else 0
granted settings (set_status at target reason force) task node = 0

-- The retries granted over a list of actions, and the task at its end.
pub act_all : Settings → List Action → Task → Node → ℕ × Task
act_all settings [] task node = (0, task)
act_all settings (a ∷ rest) task node =
    let out = act settings a task node in
    let after = act_all settings rest out.task out.node in
    (granted settings a task node + after.0, after.1)

abbrev policy_of : Settings → Task → RetryPolicy
policy_of settings task = get_retry_policy settings.retry_backoff_base_sec task

refused_retry :
    (settings : Settings) (at : ℕ) (task : Task) (reason : String) (failed_worker : Option String)
    (node : Node)
    → (try_schedule_retry settings at task reason failed_worker node).ok ≡ false
    → (try_schedule_retry settings at task reason failed_worker node).task ≡ task
unfolding try_schedule_retry
refused_retry settings at task reason failed_worker node h = ground arith

act_policy :
    (settings : Settings) (a : Action) (task : Task) (node : Node)
    → ((policy_of settings (act settings a task node).task).retry_max
        ≡ (policy_of settings task).retry_max)
      × ((policy_of settings (act settings a task node).task).retry_count
          ≡ (policy_of settings task).retry_count + granted settings a task node)
      × ((policy_of settings task).retry_count + granted settings a task node
          ≤ max (policy_of settings task).retry_count (policy_of settings task).retry_max)
unfolding act
act_policy settings (retry at reason w) task node =
    elim (Bool-cases (try_schedule_retry settings at task reason w node).ok) [
      | inl yes_ok ↦ ground (
        arith,
        (try_schedule_retry-policy settings at task reason w node yes_ok).0,
        try_schedule_retry_ok settings at task reason w node,
      )
      | inr no_ok ↦ ground (arith, refused_retry settings at task reason w node no_ok)
    ]
act_policy settings (set_status at target reason force) task node =
    let same =
      policy_of_same settings.retry_backoff_base_sec _ _
        (set_task_status-SamePolicy at task target reason force node) in
    ground (arith, same.0)

-- Over any sequence of retries and status changes, the count read back at the end is the count at
-- the start plus the retries granted, and is at most the greater of the count at the start and the
-- maximum.
pub act_all_bound :
    (settings : Settings) (actions : List Action) (task : Task) (node : Node)
    → ((get_retry_policy settings.retry_backoff_base_sec
          (act_all settings actions task node).1).retry_count
        ≡ (get_retry_policy settings.retry_backoff_base_sec task).retry_count
          + (act_all settings actions task node).0)
      × ((get_retry_policy settings.retry_backoff_base_sec task).retry_count
            + (act_all settings actions task node).0
          ≤ max
              (get_retry_policy settings.retry_backoff_base_sec task).retry_count
              (get_retry_policy settings.retry_backoff_base_sec task).retry_max)
unfolding act_all
act_all_bound settings [] task node = omega arith
act_all_bound settings (a ∷ rest) task node =
    let one = act_policy settings a task node in
    let out = act settings a task node in
    let more = act_all_bound settings rest out.task out.node in omega arith

blamed_listed :
    (task : Task) (w : String)
    → contains (Option.get_or (parse_task_env (note_failed_worker task w)).failed_workers []) w
      ≡ true
unfolding note_failed_worker parse_task_env
blamed_listed task w =
    ground (arith, contains-snoc (Option.get_or (parse_task_env task).failed_workers []) w)

status_retrying :
    (now : ℕ) (task : Task) (reason : Reason) (node : Node)
    → (set_task_status now task (state_text retrying) reason true node).task.status ≡ retrying
unfolding move_to
status_retrying now task reason node =
    rw (set_task_status-state_text now task retrying reason true node)
      (ground (arith, (enter_state-Entered now task retrying reason node).status))

abbrev failed_list : Task → List String
failed_list task = Option.get_or (parse_task_env task).failed_workers []

schedule_retry_blames :
    (settings : Settings) (now : ℕ) (task : Task) (p : RetryPolicy) (reason : String) (w : String)
    (node : Node) {after : Task × Node}
    → schedule_retry settings now task p reason (some w) node ≡ after
    → (after.0.status ≡ retrying)
      × (contains (failed_list after.0) w ≡ true)
      × (Dicts.get w after.1.worker_cooldown_until ≡ some (now + settings.worker_cooldown))
unfolding schedule_retry cool_down incr_metric
schedule_retry_blames settings now task p reason w node h = rw (← h) (
  status_retrying now _ _ node,
  rw (set_task_status-SamePolicy now _ (state_text retrying) _ true node).blamed
      (blamed_listed (set_retry_policy task (counted p) (some (retry_time now p))) w),
  Dicts.get-insert_self w (now + settings.worker_cooldown) _,
)

-- A granted retry that blames a worker puts the task into `retrying`, lists the worker among the
-- failed ones, and keeps it in cool-down for the time that the settings give.
pub try_schedule_retry_blames :
    (settings : Settings) (now : ℕ) (task : Task) (reason : String) (w : String) (node : Node)
    → (try_schedule_retry settings now task reason (some w) node).ok ≡ true
    → w ≢ ""
    → ((try_schedule_retry settings now task reason (some w) node).task.status ≡ retrying)
      × (contains
            (Option.get_or
              (parse_task_env
                (try_schedule_retry settings now task reason (some w) node).task).failed_workers
              [])
            w
          ≡ true)
      × (Dicts.get w
            (try_schedule_retry settings now task reason (some w) node).node.worker_cooldown_until
          ≡ some (now + settings.worker_cooldown))
unfolding try_schedule_retry
try_schedule_retry_blames settings now task reason w node h n =
    let p = get_retry_policy settings.retry_backoff_base_sec task in
    elim (Bool-cases (leb p.retry_max p.retry_count)) [
      | inl over ↦ absurd (ground (arith, over))
      | inr under ↦
          rw (under, beq_false w "" n)
            (schedule_retry_blames settings now task p reason w node refl)
    ]
