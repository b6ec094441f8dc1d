-- ===== src/Tasks/Lifecycle/History.antt =====
-- A task's history under the requests that the callers make.
use mathlib.Core.Path.{subst}
use nexus_grid_grid.Prelude.{
  ℕ, true, false, ◌≡◌, ◌≢◌, refl, List, [], ◌∷◌, ◌++◌, none, some, String, text_key, nat_eq, arith,
  Bool-cases, Option-cases, sym, ap, ◌∙◌, inl, inr, if◌then◌else◌,
}
use nexus_grid_grid.Tasks.State.{TaskState, can_move, state_of_text, state_key, TaskState-discrete}
use nexus_grid_grid.Tasks.Env.{Task, Reason, LogLine}
use nexus_grid_grid.Tasks.Node.{Node}
use mathlib.Core.List.{append-nil, append_assoc}
use nexus_grid_grid.Tasks.Lifecycle.{move_to, enter_state, set_task_status}
use nexus_grid_grid.Tasks.Lifecycle.Transitions.{move_to_enters, enter_state-Entered}

move_to_stays :
    (now : ℕ) (task : Task) (target : TaskState) (reason : Reason) (node : Node)
    → task.status ≡ target
    → (move_to now task target reason false node).task ≡ task
unfolding move_to
move_to_stays now task target reason node h = ground arith

move_to_legal :
    (now : ℕ) (task : Task) (target : TaskState) (reason : Reason) (node : Node)
    → can_move task.status target ≡ true
    → (move_to now task target reason false node).task.status ≡ target
move_to_legal now task target reason node legal = elim (TaskState-discrete task.status target) [
  | yes same ↦ ap (λ t. t.status) (move_to_stays now task target reason node same) ∙ same
  | no differs ↦
      ap (λ out. out.task.status) (move_to_enters now task target reason false node legal differs)
      ∙ (enter_state-Entered now task target reason node).status
]

move_to_illegal :
    (now : ℕ) (task : Task) (target : TaskState) (reason : Reason) (node : Node)
    → can_move task.status target ≡ false
    → (move_to now task target reason false node).task.status ≡ task.status
unfolding move_to
move_to_illegal now task target reason node h = ground arith

-- One unforced request, as the callers make them.
pub record Request : Type 0 where
  pub at : ℕ
  pub target : String
  pub reason : Reason

unfoldable pub request_all : List Request → Task → Node → Task × Node
request_all [] task node = (task, node)
request_all (r ∷ rs) task node =
    let out = set_task_status r.at task r.target r.reason false node in
    request_all rs out.task out.node

-- The log lines, in order, lead from the first state to the second: each line starts at the state that
-- the one before it entered, takes a legal transition, and enters another state.
pub data Trail (from : TaskState) : List LogLine → TaskState → Type 0 where
  here : Trail from [] from
  then_to :
      {lines : List LogLine} {old target : TaskState} (at : ℕ) (reason : Reason)
      → Trail from lines old
      → can_move old target ≡ true
      → old ≢ target
      → Trail from
          (lines ++ record { at = at; old = old; target = target; reason = reason } ∷ [])
          target

-- What one request makes of a state: a text that names no state and a step out of the graph of legal
-- transitions leave it.
abbrev pub next : TaskState → String → TaskState
next present target = elim (state_of_text target) [
  | none ↦ present
  | some named ↦ if can_move present named then named else present
]

abbrev pub walk : TaskState → List Request → TaskState
walk present [] = present
walk present (r ∷ rs) = walk (next present r.target) rs

-- A task against what it was: the lines that were added to its log lead from the old status to the new.
pub record Recorded (before after : Task) : Type 0 where
  pub lines : List LogLine
  pub logs : after.logs ≡ before.logs ++ lines
  pub trail : Trail before.status lines after.status

Recorded-same : (task : Task) → Recorded task task
Recorded-same task = record { lines = []; logs = sym (append-nil task.logs); trail = here }

Recorded-enter :
    (start : Task) (now : ℕ) (task : Task) (target : TaskState) (reason : Reason) (node : Node)
    → can_move task.status target ≡ true
    → task.status ≢ target
    → Recorded start task
    → Recorded start (enter_state now task target reason node).0
Recorded-enter start now task target reason node legal differs h =
    let entered = enter_state-Entered now task target reason node in
    let line : LogLine = record { at = now; old = task.status; target = target; reason = reason } in
    record {
      lines = h.lines ++ line ∷ [];
      logs =
          entered.logs
          ∙ ap (λ l. l ++ line ∷ []) h.logs
          ∙ append_assoc start.logs h.lines (line ∷ []);
      trail =
          subst (Trail start.status (h.lines ++ line ∷ [])) (sym entered.status)
            (then_to now reason h.trail legal differs);
    }

move_to-Recorded :
    (start : Task) (now : ℕ) (task : Task) (target : TaskState) (reason : Reason) (node : Node)
    → Recorded start task
    → Recorded start (move_to now task target reason false node).task
unfolding move_to
move_to-Recorded start now task target reason node h =
    elim (Bool-cases (can_move task.status target)) [
      | inr illegal ↦ rw illegal h
      | inl legal ↦ elim (TaskState-discrete task.status target) [
        | yes same ↦ subst (Recorded start) (sym (move_to_stays now task target reason node same)) h
        | no differs ↦
            subst (λ out. Recorded start out.task)
              (sym (move_to_enters now task target reason false node legal differs))
              (Recorded-enter start now task target reason node legal differs h)
      ]
    ]

set_task_status-Recorded :
    (start : Task) (r : Request) (task : Task) (node : Node)
    → Recorded start task
    → Recorded start (set_task_status r.at task r.target r.reason false node).task
unfolding set_task_status
set_task_status-Recorded start r task node h = elim (Option-cases (state_of_text r.target)) [
  | inl unknown ↦ rw (unknown, set_task_status) h
  | inr (target, known) ↦
      rw (known, set_task_status) (move_to-Recorded start r.at task target r.reason node h)
]

set_task_status-next :
    (r : Request) (task : Task) (node : Node)
    → (set_task_status r.at task r.target r.reason false node).task.status
      ≡ next task.status r.target
unfolding set_task_status
set_task_status-next r task node = elim (Option-cases (state_of_text r.target)) [
  | inl unknown ↦ rw (unknown, set_task_status, next) refl
  | inr (target, known) ↦
      rw (known, set_task_status, next)
        (elim (Bool-cases (can_move task.status target)) [
          | inr illegal ↦ rw illegal (move_to_illegal r.at task target r.reason node illegal)
          | inl legal ↦ rw legal (move_to_legal r.at task target r.reason node legal)
        ])
]

request_all-Recorded_from :
    (start : Task) (rs : List Request) (task : Task) (node : Node)
    → Recorded start task
    → Recorded start (request_all rs task node).0
unfolding request_all
request_all-Recorded_from start [] task node h = h
request_all-Recorded_from start (r ∷ rs) task node h =
    request_all-Recorded_from start rs _ _ (set_task_status-Recorded start r task node h)

request_all-walk :
    (rs : List Request) (task : Task) (node : Node)
    → (request_all rs task node).0.status ≡ walk task.status rs
unfolding request_all
request_all-walk [] task node = refl
request_all-walk (r ∷ rs) task node =
    request_all-walk rs _ _ ∙ ap (λ s. walk s rs) (set_task_status-next r task node)

-- Whatever unforced requests are made of a task, in whatever order and with whatever texts: its status
-- is where they lead when each text that names no state, and each step out of the graph of legal
-- transitions, is passed over; and the lines added to its log are the chain of legal transitions, each
-- from the state that the one before it entered into another, that leads there from the first status.
pub request_all-Recorded :
    (rs : List Request) (task : Task) (node : Node)
    → ((request_all rs task node).0.status ≡ walk task.status rs)
      × Recorded task (request_all rs task node).0
request_all-Recorded rs task node = (
  request_all-walk rs task node,
  request_all-Recorded_from task rs task node (Recorded-same task),
)
