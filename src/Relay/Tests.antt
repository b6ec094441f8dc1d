-- ===== src/Relay/Tests.antt =====
-- The theorems on relays applied to one binding and its node.
use nexus_grid_grid.Prelude.Dicts
use nexus_grid_grid.Prelude.Text.{strip}
use nexus_grid_grid.Prelude.{
  Bool, true, false, ◌≡◌, refl, List, [], ◌∷◌, some, String, any, text_key, pair_key, ne_of_beq, ap,
  ◌==◌, if◌then◌else◌, ◌&&◌, length, arith,
}
use mathlib.Core.Bool.{false≢true}
use nexus_grid_grid.Relay.{
  starting, online, relay_state_of, Binding, Request, request_all, relay_state_key,
  RelayState-discrete,
}
use nexus_grid_grid.Relay.Trail.{IsTraced, request_all-Trail, comes_online, request_all_online}
use nexus_grid_grid.Relay.SelfHeal.{RelayNode, bound_groups, reconcile_relay_url}
use nexus_grid_grid.Relay.Moved.{status_at, is_active, moved_status}
use nexus_grid_grid.Relay.Healed.{reconcile_relay_url_moves}
use nexus_grid_grid.Relay.Pause.{
  PauseState, is_tunnel_running, pause, kill_cloudflared, tunnel_at, resume, pause_at, wake_up,
  resume_with, handle_all,
}
use nexus_grid_grid.Relay.Paused.{IsSound, handle_all-IsSound, resume-pause, resume_after_grace}

abbrev binding_in : String → Binding
binding_in state = record {
  operator_pubkey = "me";
  registered_at = "2026-01-01";
  status = "active";
  state = state;
  last_state_change_at = "";
  consecutive_probe_failures = 2;
}

abbrev request_for : String → Request
request_for state = record { at = "2026-01-02"; new_state = state; reason = "test" }

abbrev requests : List Request
requests =
    request_for "validating"
    ∷ request_for "online"
    ∷ request_for " Syncing"
    ∷ request_for "online"
    ∷ []

abbrev relay_node : RelayNode
relay_node = record {
  bindings = (("g", "old"), binding_in "online") ∷ [];
  updates = [];
  reconcile_count = 0;
  relay_running = true;
  tunnel_url = some "old";
  self_heal_url = "old";
  tunnel_enabled = true;
}

abbrev calm_state : PauseState
calm_state = record {
  is_paused = false;
  paused_at = 0;
  kill_pending = false;
  cloudflared_killed = false;
  node = relay_node;
}

abbrev all_publish : String → Bool
all_publish gid = true

request_all-Trail_example :
    IsTraced starting
      (request_all requests (binding_in "starting") []).0
      (request_all requests (binding_in "starting") []).1
unfolding relay_state_of
request_all-Trail_example = request_all-Trail starting requests (binding_in "starting") refl

request_all_online_example :
    (any comes_online (request_all requests (binding_in "starting") []).1 ≡ true)
    × ((request_all requests (binding_in "starting") []).0.consecutive_probe_failures ≡ 0)
unfolding relay_state_of request_all RelayState-discrete
request_all_online_example =
    request_all_online starting requests (binding_in "starting") refl
      (λ p. false≢true (ap (λ s. s == online) p)) refl

reconcile_relay_url_moves_example :
    (status_at "g" "new"
        (reconcile_relay_url all_publish "me" "now" "old" "new" relay_node).0.bindings
      ≡ (if is_active "g" (strip "old") relay_node.bindings && true
          then moved_status
              (strip "old")
              (strip "new")
              "new"
              (status_at "g" "new" relay_node.bindings)
          else status_at "g" "new" relay_node.bindings))
    × ((reconcile_relay_url all_publish "me" "now" "old" "new" relay_node).1
        ≡ length (bound_groups (strip "old") relay_node.bindings))
unfolding Dicts.get strip
reconcile_relay_url_moves_example =
    reconcile_relay_url_moves all_publish "me" "now" "old" "new" "g" "new" relay_node (refl, tt)
      (ne_of_beq "old" "" refl) (ne_of_beq "new" "" refl) (ne_of_beq "old" "new" refl)

calm_state-IsSound : IsSound calm_state
calm_state-IsSound = record {
  due = λ p. absurd (false≢true p);
  killed = λ p. absurd (false≢true p);
  timed = λ p. refl;
}

handle_all-IsSound_example : IsSound (
    handle_all all_publish "me" "now"
      (pause_at 1000 ∷ wake_up ∷ resume_with (tunnel_at "new") ∷ [])
      calm_state)
handle_all-IsSound_example =
    handle_all-IsSound all_publish "me" "now"
      (pause_at 1000 ∷ wake_up ∷ resume_with (tunnel_at "new") ∷ []) calm_state calm_state-IsSound

resume-pause_example :
    resume all_publish "me" "now" (tunnel_at "new") (pause 1000 calm_state).0
    ≡ (calm_state, ("resumed", false))
resume-pause_example =
    resume-pause all_publish "me" "now" 1000 (tunnel_at "new") calm_state calm_state-IsSound refl
      refl (λ p. ground arith)

resume_after_grace_example :
    let after =
      resume all_publish "me" "now"
        (tunnel_at "new")
        (kill_cloudflared (pause 1000 calm_state).0) in
    (after.1 ≡ ("resumed", true))
    × (after.0.node.self_heal_url ≡ "new")
    × (is_active "g" (strip "old") after.0.node.bindings ≡ false)
unfolding Dicts.get strip is_tunnel_running
resume_after_grace_example =
    resume_after_grace all_publish "me" "now" 1000 "new" "g" calm_state refl refl refl refl
      (refl, tt) refl (ne_of_beq "old" "" refl) (ne_of_beq "new" "" refl)
      (ne_of_beq "old" "new" refl)
