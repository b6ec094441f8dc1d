-- ===== src/Relay.antt =====
-- The relays of a group: runtime/relay_state.py, the state machine of a binding (a row of
-- `GroupRelayBinding` in nexus/storage/models.py), with the audit events that its changes leave.
use nexus_grid_grid.Prelude.Text.{strip}
use nexus_grid_grid.Prelude.{
  ℕ, Bool, true, false, ◌&&◌, ◌≡◌, refl, List, [], ◌∷◌, ◌++◌, Option, none, some, String, contains,
  Eq, key_of_discrete, if◌then◌else◌, ◌==◌, nat_eq, text_key,
}
use nexus_grid_grid.Tasks.State.{lower_code, lower_equals}
use Prim.Native.Char.{code}
pub mod Trail
pub mod SelfHeal
pub mod Moved
pub mod Healed
pub mod Pause
pub mod Paused
mod Tests

pub data RelayState : Type 0 where
  starting validating syncing online offline reconnecting retired : RelayState

unfoldable pub RelayState-discrete : Discrete RelayState
RelayState-discrete = hlevel

instance abbrev pub relay_state_key : Eq RelayState
relay_state_key = key_of_discrete RelayState-discrete

-- The text of the `state` column.
unfoldable pub relay_state_text : RelayState → String
relay_state_text starting = "starting"
relay_state_text validating = "validating"
relay_state_text syncing = "syncing"
relay_state_text online = "online"
relay_state_text offline = "offline"
relay_state_text reconnecting = "reconnecting"
relay_state_text retired = "retired"

-- VALID_TRANSITIONS
unfoldable pub valid_transitions : RelayState → List RelayState
valid_transitions starting = validating ∷ offline ∷ retired ∷ []
valid_transitions validating = syncing ∷ offline ∷ retired ∷ []
valid_transitions syncing = online ∷ offline ∷ retired ∷ []
valid_transitions online = offline ∷ retired ∷ []
valid_transitions offline = reconnecting ∷ retired ∷ []
valid_transitions reconnecting = syncing ∷ offline ∷ retired ∷ []
valid_transitions retired = []

-- ALL_STATES
abbrev pub all_states : List RelayState
all_states = starting ∷ validating ∷ syncing ∷ online ∷ offline ∷ reconnecting ∷ retired ∷ []

unfoldable pub can_transition : RelayState → RelayState → Bool
unfolding valid_transitions RelayState-discrete
can_transition current target = contains (valid_transitions current) target

abbrev pub first_named : String → List RelayState → Option RelayState
first_named text [] = none
first_named text (s ∷ rest) =
    let later = first_named text rest in
    if lower_equals text (relay_state_text s) then some s else later

-- The state whose name is the text, stripped and in lower case.
unfoldable pub relay_state_of : String → Option RelayState
unfolding strip lower_equals relay_state_text
relay_state_of text = first_named (strip text) all_states

-- `s.lower() == t.lower()`
unfoldable pub same_lowered : String → String → Bool
unfolding lower_code
same_lowered String.[] String.[] = true
same_lowered String.[] (String.◌∷◌ d t) = false
same_lowered (String.◌∷◌ c s) String.[] = false
same_lowered (String.◌∷◌ c s) (String.◌∷◌ d t) =
    lower_code (code c) == lower_code (code d) && same_lowered s t

-- The columns of a binding that the parts here read or write, beside its group and address.
pub record Binding : Type 0 where
  pub operator_pubkey : String
  pub registered_at : String
  pub status : String
  pub state : String
  pub last_state_change_at : String
  pub consecutive_probe_failures : ℕ

-- The values in the audit event of a change.
pub record Change : Type 0 where
  pub old : RelayState
  pub target : RelayState
  pub reason : String

-- `False`, `True` with what was written and the event that is scheduled, or one of the two errors.
pub data Transition : Type 0 where
  unchanged : Transition
  moved : Binding → Change → Transition
  unknown_target illegal_transition : Transition

unfoldable pub enter : String → RelayState → Binding → Binding
unfolding relay_state_text RelayState-discrete
enter now target binding = record binding {
  state = relay_state_text target;
  last_state_change_at = now;
  consecutive_probe_failures = if target == online then 0 else binding.consecutive_probe_failures;
}

-- The part after the target is known: a column that names no state has no legal next state.
unfoldable pub move_from : String → Option RelayState → RelayState → String → Binding → Transition
unfolding can_transition enter
move_from now none target reason binding = illegal_transition
move_from now (some current) target reason binding =
    if can_transition current target
    then moved (enter now target binding)
        (record { old = current; target = target; reason = reason })
    else illegal_transition

unfoldable pub move_to_named : String → Option RelayState → String → Binding → Transition
unfolding move_from relay_state_of
move_to_named now none reason binding = unknown_target
move_to_named now (some target) reason binding =
    move_from now (relay_state_of binding.state) target reason binding

unfoldable pub transition : String → Binding → String → String → Transition
unfolding same_lowered strip move_to_named
transition now binding new_state reason =
    if same_lowered (strip binding.state) (strip new_state)
    then unchanged
    else move_to_named now (relay_state_of new_state) reason binding

-- A request for a state, at a time and with a reason.
pub record Request : Type 0 where
  pub at : String
  pub new_state : String
  pub reason : String

-- What a transition leaves of a binding, and of the audit log.
unfoldable pub settle : Transition → Binding → List Change → Binding × List Change
settle (moved after change) binding log = (after, log ++ change ∷ [])
settle unchanged binding log = (binding, log)
settle unknown_target binding log = (binding, log)
settle illegal_transition binding log = (binding, log)

-- Requests one after the other, the errors caught by the caller.
unfoldable pub request_all : List Request → Binding → List Change → Binding × List Change
unfolding settle transition
request_all [] binding log = (binding, log)
request_all (r ∷ rs) binding log =
    let after = settle (transition r.at binding r.new_state r.reason) binding log in
    request_all rs after.0 after.1
