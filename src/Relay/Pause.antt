-- ===== src/Relay/Pause.antt =====
-- runtime/relay_pause.py: the local relay is paused while its tunnel is kept for a grace time; then
-- the tunnel is stopped as well. A wake-up of the delayed task is an event; whether the relay could be
-- started again on its port, and the tunnel under an address, are arguments of the resume.
use nexus_grid_grid.Prelude.{
  ℕ, ◌-◌, ◌/◌, Bool, true, false, not, ◌&&◌, List, [], ◌∷◌, none, some, String, if◌then◌else◌, ◌==◌,
  nat_eq,
}
use nexus_grid_grid.Relay.SelfHeal.{RelayNode, start_tunnel_and_reconcile}

-- `_state`, with the node whose relay it is about. A pending wake-up is one that was not cancelled.
pub record PauseState : Type 0 where
  pub is_paused : Bool
  pub paused_at : ℕ
  pub kill_pending : Bool
  pub cloudflared_killed : Bool
  pub node : RelayNode

unfoldable pub is_tunnel_running : RelayNode → Bool
is_tunnel_running node = elim node.tunnel_url [ none ↦ false | some url ↦ true ]

-- What the user interface shows: whole seconds of grace left, of 120.
unfoldable pub grace_remaining_sec : ℕ → PauseState → ℕ
grace_remaining_sec now s =
    if s.is_paused && not (s.paused_at == 0) then (120000 - (now - s.paused_at)) / 1000 else 0

unfoldable pub pause : ℕ → PauseState → PauseState × String
pause now s =
    if s.is_paused
    then (s, "already_paused")
    else if not s.node.relay_running
    then (s, "not_running")
    else (
      record {
        is_paused = true;
        paused_at = now;
        kill_pending = true;
        cloudflared_killed = false;
        node = record s.node { relay_running = false };
      },
      "paused",
    )

-- The delayed task wakes up.
unfoldable pub kill_cloudflared : PauseState → PauseState
unfolding is_tunnel_running
kill_cloudflared s =
    if not (s.kill_pending && s.is_paused)
    then s
    else if is_tunnel_running s.node
    then record s {
      kill_pending = false;
      cloudflared_killed = true;
      node = record s.node { tunnel_url = none };
    }
    else record s { kill_pending = false }

-- What the attempts to start again come to: no port, or the relay with or without a tunnel.
pub data Restart : Type 0 where
  port_unavailable no_tunnel : Restart
  tunnel_at : (url : String) → Restart

-- What a resume clears.
abbrev pub cleared : RelayNode → PauseState
cleared node = record {
  is_paused = false;
  paused_at = 0;
  kill_pending = false;
  cloudflared_killed = false;
  node = node;
}

pub data Event : Type 0 where
  pause_at : ℕ → Event
  wake_up : Event
  resume_with : Restart → Event

module _ (publishes : String → Bool) (me now : String) where
  unfoldable pub restart_tunnel : Restart → RelayNode → RelayNode × Bool
  restart_tunnel (tunnel_at url) node = (start_tunnel_and_reconcile publishes me now url node, true)
  restart_tunnel no_tunnel node = (node, false)
  restart_tunnel port_unavailable node = (node, false)

  -- The part after the relay was started: the state, the status and whether the address changed.
  unfoldable pub restarted : Restart → Bool → RelayNode → RelayNode × Bool
  unfolding restart_tunnel
  restarted attempt killed node =
      let running = record node { relay_running = true } in
      if killed && node.tunnel_enabled then restart_tunnel attempt running else (running, false)

  unfoldable pub resume : Restart → PauseState → PauseState × (String × Bool)
  unfolding restarted
  resume attempt s =
      let after = restarted attempt s.cloudflared_killed s.node in
      if not s.is_paused then (s, ("not_paused", false)) else elim attempt [
        | port_unavailable ↦ (cleared s.node, ("resume_failed", false))
        | no_tunnel ↦ (cleared after.0, ("resumed", after.1))
        | tunnel_at url ↦ (cleared after.0, ("resumed", after.1))
      ]

  unfoldable pub handle : Event → PauseState → PauseState
  unfolding pause kill_cloudflared resume
  handle (pause_at time) s = (pause time s).0
  handle wake_up s = kill_cloudflared s
  handle (resume_with attempt) s = (resume attempt s).0

  unfoldable pub handle_all : List Event → PauseState → PauseState
  unfolding handle
  handle_all [] s = s
  handle_all (e ∷ es) s = handle_all es (handle e s)
