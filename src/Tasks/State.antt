-- ===== src/Tasks/State.antt =====
-- The task state machine of nexus/core/constants.py: the states, the terminal ones, and the graph
-- of legal transitions.
pub mod Graph
use Prim.Native.Char.{code}
use nexus_grid_grid.Prelude.{
  ℕ, ◌+◌, Option, none, some, ◌&&◌, if◌then◌else◌, leb, ◌==◌, nat_eq, Bool, true, false, ◌≡◌, refl,
  List, [], ◌∷◌, Eq, contains, String, key_of_discrete,
}

-- TASK_STATES
pub data TaskState : Type 0 where
  waiting awaiting_approval queued processing serving preempted disrupted : TaskState
  cancelled retrying completed failed lease_expired : TaskState

-- The text that the `status` column holds.
unfoldable pub state_text : TaskState → String
state_text waiting = "waiting"
state_text awaiting_approval = "awaiting_approval"
state_text queued = "queued"
state_text processing = "processing"
state_text serving = "serving"
state_text preempted = "preempted"
state_text disrupted = "disrupted"
state_text cancelled = "cancelled"
state_text retrying = "retrying"
state_text completed = "completed"
state_text failed = "failed"
state_text lease_expired = "lease_expired"

unfoldable pub TaskState-discrete : Discrete TaskState
TaskState-discrete = hlevel

instance abbrev pub state_key : Eq TaskState
state_key = key_of_discrete TaskState-discrete

-- TERMINAL_STATES
abbrev pub terminal_states : List TaskState
terminal_states = completed ∷ failed ∷ cancelled ∷ disrupted ∷ []

-- ALLOWED_TRANSITIONS
unfoldable pub allowed_transitions : TaskState → List TaskState
allowed_transitions waiting = queued ∷ awaiting_approval ∷ cancelled ∷ []
allowed_transitions awaiting_approval = queued ∷ cancelled ∷ []
allowed_transitions queued = processing ∷ cancelled ∷ retrying ∷ []
allowed_transitions processing =
    completed ∷ failed ∷ preempted ∷ disrupted ∷ lease_expired ∷ cancelled ∷ retrying ∷ serving ∷ []
allowed_transitions serving = completed ∷ failed ∷ preempted ∷ disrupted ∷ cancelled ∷ []
allowed_transitions preempted = retrying ∷ queued ∷ failed ∷ []
allowed_transitions lease_expired = retrying ∷ queued ∷ failed ∷ []
allowed_transitions retrying = queued ∷ cancelled ∷ failed ∷ []
allowed_transitions failed = retrying ∷ queued ∷ []
allowed_transitions completed = queued ∷ []
allowed_transitions cancelled = []
allowed_transitions disrupted = retrying ∷ queued ∷ failed ∷ []

-- `target_status in ALLOWED_TRANSITIONS.get(old_status, set())`
unfoldable pub can_move : TaskState → TaskState → Bool
unfolding allowed_transitions TaskState-discrete
can_move old target = contains (allowed_transitions old) target

unfoldable pub is_terminal : TaskState → Bool
unfolding TaskState-discrete
is_terminal s = contains terminal_states s

-- `str.lower()` on one code point. No other code point is lowered to a letter of a state's name.
unfoldable pub lower_code : ℕ → ℕ
lower_code c = if leb b'A' c && leb c b'Z' then c + 32 else c

-- `s.lower() == t`
unfoldable pub lower_equals : String → String → Bool
unfolding lower_code
lower_equals String.[] String.[] = true
lower_equals String.[] (String.◌∷◌ d t) = false
lower_equals (String.◌∷◌ c s) String.[] = false
lower_equals (String.◌∷◌ c s) (String.◌∷◌ d t) = lower_code (code c) == code d && lower_equals s t

abbrev pub task_states : List TaskState
task_states =
    waiting ∷ awaiting_approval ∷ queued ∷ processing ∷ serving ∷ preempted ∷ disrupted ∷ cancelled
    ∷ retrying ∷ completed ∷ failed ∷ lease_expired ∷ []

abbrev first_named : String → List TaskState → Option TaskState
first_named text [] = none
first_named text (s ∷ rest) =
    let later = first_named text rest in if lower_equals text (state_text s) then some s else later

-- `str(text).lower()`, where it is in TASK_STATES.
unfoldable pub state_of_text : String → Option TaskState
unfolding lower_equals state_text
state_of_text text = first_named text task_states

-- Each state's own name is read back as that state.
pub state_of_text-state_text : (s : TaskState) → state_of_text (state_text s) ≡ some s
unfolding state_of_text
state_of_text-state_text = elim [
  | waiting ↦ refl
  | awaiting_approval ↦ refl
  | queued ↦ refl
  | processing ↦ refl
  | serving ↦ refl
  | preempted ↦ refl
  | disrupted ↦ refl
  | cancelled ↦ refl
  | retrying ↦ refl
  | completed ↦ refl
  | failed ↦ refl
  | lease_expired ↦ refl
]
