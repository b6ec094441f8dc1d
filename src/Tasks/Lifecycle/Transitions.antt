-- ===== src/Tasks/Lifecycle/Transitions.antt =====
-- What `set_task_status` does to the task and to the shared state, on every branch.
use mathlib.Core.Option
use nexus_grid_grid.Prelude.{
  ℕ, ◌≤◌, ◌<◌, Bool, true, false, not, ◌&&◌, ◌||◌, ◌≡◌, ◌≢◌, refl, List, [], ◌∷◌, ◌++◌, none, some,
  String, length, length-take_last-le, select, if◌then◌else◌, ◌==◌, text_key, nat_eq, arith,
  Option-cases, inl, inr,
}
use nexus_grid_grid.Tasks.State.{
  TaskState, queued, processing, serving, can_move, is_terminal, state_of_text, state_text,
  state_key, state_of_text-state_text,
}
use nexus_grid_grid.Tasks.Env.{
  Task, Reason, parse_task_env, or_default, TimelineEvent, Details, TaskEnv, transition,
}
use nexus_grid_grid.Tasks.Node.{Node, status_changed, publish}
use nexus_grid_grid.Tasks.Lifecycle.{
  done, enter_state, move_to, set_task_status, add_task_timeline_event, forget_strikes,
  stamp_queued, stamp_started, stamp_completed,
}

-- Every caller that names a state reaches the transition with that state.
pub set_task_status-state_text :
    (now : ℕ) (task : Task) (target : TaskState) (reason : Reason) (force : Bool) (node : Node)
    → set_task_status now task (state_text target) reason force node
      ≡ move_to now task target reason force node
unfolding set_task_status
set_task_status-state_text now task target reason force node =
    rw (state_of_text-state_text target, set_task_status)

-- `set_task_status` succeeds exactly when the text names a state, and the edge is in the graph of
-- legal transitions or the call is forced.
pub set_task_status_ok :
    (now : ℕ) (task : Task) (new_status : String) (reason : Reason) (force : Bool) (node : Node)
    → (set_task_status now task new_status reason force node).ok
      ≡ (elim (state_of_text new_status) [
        | none ↦ false
        | some target ↦ force || can_move task.status target
      ])
unfolding set_task_status move_to
set_task_status_ok now task new_status reason force node = ground arith

abbrev pub timeline_of : Task → List TimelineEvent
timeline_of task = Option.get_or (parse_task_env task).timeline []

-- No task keeps more than 250 timeline entries once an entry is added.
timeline_bound :
    (now : ℕ) (task : Task) (event : String) (details : Details)
    → length (timeline_of (add_task_timeline_event now task event details)) ≤ 250
unfolding add_task_timeline_event
timeline_bound now task event details =
    length-take_last-le 250
      (timeline_of task ++ record { ts = now; event = event; details = details } ∷ [])

-- What a transition makes of a task: the new status and one log line at the end; the identity, the
-- dependencies and the worker stay; the completion time is stamped exactly on a terminal state.
pub record Entered (now : ℕ) (before after : Task) (target : TaskState) (reason : Reason)
    : Type 0 where
  pub status : after.status ≡ target
  pub logs :
      after.logs
      ≡ before.logs
        ++ record { at = now; old = before.status; target = target; reason = reason } ∷ []
  pub identity : after.id ≡ before.id
  pub parent : after.parent_id ≡ before.parent_id
  pub dependencies : after.depends_on ≡ before.depends_on
  pub worker : after.worker ≡ before.worker
  pub timeline : length (timeline_of after) ≤ 250
  pub queued_at :
      (parse_task_env after).queued_at
      ≡ (if target == queued then some now else (parse_task_env before).queued_at)
  pub started_at : (parse_task_env after).started_at ≡ (
      if (target == processing || target == serving)
        && or_default (parse_task_env before).started_at 0 == 0
      then some now
      else (parse_task_env before).started_at)
  pub completed_at :
      (parse_task_env after).completed_at
      ≡ (if is_terminal target then some now else (parse_task_env before).completed_at)

stamps_timeline :
    (now : ℕ) (target : TaskState) (env : TaskEnv)
    → (stamp_completed now target (stamp_started now target (stamp_queued now target env))).timeline
      ≡ env.timeline
unfolding stamp_queued stamp_started stamp_completed
stamps_timeline now target env = ground arith

enter_state-timeline :
    (now : ℕ) (task : Task) (target : TaskState) (reason : Reason) (node : Node)
    → length (timeline_of (enter_state now task target reason node).0) ≤ 250
unfolding enter_state add_task_timeline_event
enter_state-timeline now task target reason node = rw stamps_timeline (
    length-take_last-le 250 (
      timeline_of task
      ++ record {
        ts = now;
        event = "status_transition";
        details = transition task.status target reason;
      }
        ∷ []))

pub enter_state-Entered :
    (now : ℕ) (task : Task) (target : TaskState) (reason : Reason) (node : Node)
    → Entered now task (enter_state now task target reason node).0 target reason
unfolding enter_state add_task_timeline_event stamp_queued stamp_started stamp_completed
enter_state-Entered now task target reason node = record {
  status = refl;
  logs = refl;
  identity = refl;
  parent = refl;
  dependencies = refl;
  worker = refl;
  timeline = enter_state-timeline now task target reason node;
  queued_at = ground arith;
  started_at = ground arith;
  completed_at = ground arith;
}

pub move_to_enters :
    (now : ℕ) (task : Task) (target : TaskState) (reason : Reason) (force : Bool) (node : Node)
    → (force || can_move task.status target) ≡ true
    → task.status ≢ target
    → move_to now task target reason force node ≡ done (enter_state now task target reason node)
unfolding move_to
move_to_enters now task target reason force node h n = ground arith

enter_state_events :
    (now : ℕ) (task : Task) (target : TaskState) (reason : Reason) (node : Node)
    → (enter_state now task target reason node).1.events
      ≡ node.events ++ status_changed task.id task.status target reason ∷ []
unfolding enter_state publish forget_strikes
enter_state_events now task target reason node = ground arith

enter_state_strikes :
    (now : ℕ) (task : Task) (target : TaskState) (reason : Reason) (node : Node)
    → (enter_state now task target reason node).1.consent_strikes ≡ (
        if is_terminal target
        then select (λ strike. not (strike.0.0 == task.id)) node.consent_strikes
        else node.consent_strikes)
unfolding enter_state publish forget_strikes
enter_state_strikes now task target reason node = ground arith

-- A call that names a state other than the task's own, forced or along a legal edge, succeeds; the
-- task is changed as `Entered` says, one event is published, and the consent strikes of the task,
-- and only those, are dropped exactly on a terminal state.
pub set_task_status_enters :
    (now : ℕ) (task : Task) (target : TaskState) (reason : Reason) (force : Bool) (node : Node)
    → (force || can_move task.status target) ≡ true
    → task.status ≢ target
    → ((set_task_status now task (state_text target) reason force node).ok ≡ true)
      × Entered now task
          (set_task_status now task (state_text target) reason force node).task
          target
          reason
      × ((set_task_status now task (state_text target) reason force node).node.events
          ≡ node.events ++ status_changed task.id task.status target reason ∷ [])
      × ((set_task_status now task (state_text target) reason force node).node.consent_strikes ≡ (
          if is_terminal target
          then select (λ strike. not (strike.0.0 == task.id)) node.consent_strikes
          else node.consent_strikes))
set_task_status_enters now task target reason force node h n =
    rw (set_task_status-state_text, move_to_enters now task target reason force node h n)
      (
        refl,
        enter_state-Entered now task target reason node,
        enter_state_events now task target reason node,
        enter_state_strikes now task target reason node,
      )

enter_state-keeps_start :
    (now : ℕ) (task : Task) (target : TaskState) (reason : Reason) (node : Node)
    → 0 < or_default (parse_task_env task).started_at 0
    → (parse_task_env (enter_state now task target reason node).0).started_at
      ≡ (parse_task_env task).started_at
enter_state-keeps_start now task target reason node h =
    ground (arith, (enter_state-Entered now task target reason node).started_at)

-- A start time, once stamped, is kept by every later call, whatever it asks for.
pub started_at_kept :
    (now : ℕ) (task : Task) (new_status : String) (reason : Reason) (force : Bool) (node : Node)
    → 0 < or_default (parse_task_env task).started_at 0
    → (parse_task_env (set_task_status now task new_status reason force node).task).started_at
      ≡ (parse_task_env task).started_at
unfolding set_task_status move_to
started_at_kept now task new_status reason force node h =
    elim (Option-cases (state_of_text new_status)) [
      | inl unknown ↦ rw (unknown, set_task_status)
      | inr (target, known) ↦
          rw (known, set_task_status)
            (ground (arith, enter_state-keeps_start now task target reason node h))
    ]
