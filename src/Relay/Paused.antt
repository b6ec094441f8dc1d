-- ===== src/Relay/Paused.antt =====
-- Which states a paused relay goes through.
use nexus_grid_grid.Prelude.{
  ℕ, Bool, true, false, not, ◌≡◌, refl, List, [], ◌∷◌, none, String, if◌then◌else◌, nat_eq, arith,
  sym, ◌≢◌,
}
use mathlib.Core.Bool.{false≢true}
use nexus_grid_grid.Prelude.Dicts
use nexus_grid_grid.Prelude.Text.{strip}
use nexus_grid_grid.Prelude.{text_key, pair_key}
use nexus_grid_grid.Relay.Moved.{is_active}
use nexus_grid_grid.Relay.Healed.{start_tunnel_and_reconcile_heals}
use nexus_grid_grid.Relay.SelfHeal.{RelayNode, start_tunnel_and_reconcile}
use nexus_grid_grid.Relay.Pause.{
  PauseState, is_tunnel_running, pause, kill_cloudflared, Restart, port_unavailable, no_tunnel,
  tunnel_at, restart_tunnel, restarted, resume, Event, pause_at, wake_up, resume_with, handle,
  handle_all, cleared,
}

-- A wake-up is due only while the relay is paused and its tunnel was not stopped in this pause; the tunnel was
-- stopped only while the relay is paused, and then it does not run; a time is kept only while paused.
pub record IsSound (s : PauseState) : Type 0 where
  pub due : s.kill_pending ≡ true → (s.is_paused ≡ true) × (s.cloudflared_killed ≡ false)
  pub killed :
      s.cloudflared_killed ≡ true → (s.is_paused ≡ true) × (is_tunnel_running s.node ≡ false)
  pub timed : s.is_paused ≡ false → s.paused_at ≡ 0

-- Both branches of a test.
either-IsSound :
    {A : Type 0} (b : Bool) (x y : PauseState × A)
    → (b ≡ true → IsSound x.0)
    → (b ≡ false → IsSound y.0)
    → IsSound (if b then x else y).0
either-IsSound true x y h k = h refl
either-IsSound false x y h k = k refl

pause-IsSound : (now : ℕ) (s : PauseState) → IsSound s → IsSound (pause now s).0
unfolding pause is_tunnel_running
pause-IsSound now s h =
    either-IsSound s.is_paused _ _ (λ e. h)
      (λ e.
        either-IsSound (not s.node.relay_running) _ _ (λ r. h)
          (λ r. record {
            due = λ p. (refl, refl);
            killed = λ p. absurd (false≢true p);
            timed = λ p. absurd (false≢true (sym p));
          }))

kill_cloudflared-IsSound : (s : PauseState) → IsSound s → IsSound (kill_cloudflared s)
unfolding kill_cloudflared is_tunnel_running
kill_cloudflared-IsSound s h = record {
  due = λ p. ground (arith, h.due);
  killed = λ p. ground (arith, h.killed);
  timed = λ p. ground (arith, h.timed);
}

module _ (publishes : String → Bool) (me now : String) where
  cleared-IsSound : (node : RelayNode) → IsSound (cleared node)
  cleared-IsSound node = record {
    due = λ p. absurd (false≢true p);
    killed = λ p. absurd (false≢true p);
    timed = λ p. refl;
  }

  resume-IsSound :
      (attempt : Restart) (s : PauseState)
      → IsSound s
      → IsSound (resume publishes me now attempt s).0
  unfolding resume
  resume-IsSound port_unavailable s h =
      either-IsSound (not s.is_paused) (s, ("not_paused", false)) _ (λ e. h)
        (λ e. cleared-IsSound _)
  resume-IsSound no_tunnel s h =
      either-IsSound (not s.is_paused) (s, ("not_paused", false)) _ (λ e. h)
        (λ e. cleared-IsSound _)
  resume-IsSound (tunnel_at url) s h =
      either-IsSound (not s.is_paused) (s, ("not_paused", false)) _ (λ e. h)
        (λ e. cleared-IsSound _)

  handle-IsSound : (e : Event) (s : PauseState) → IsSound s → IsSound (handle publishes me now e s)
  unfolding handle
  handle-IsSound (pause_at time) s h = pause-IsSound time s h
  handle-IsSound wake_up s h = kill_cloudflared-IsSound s h
  handle-IsSound (resume_with attempt) s h = resume-IsSound attempt s h

  -- Pauses, wake-ups and resumes in any order keep the state sound: a wake-up is due only during a pause
  -- in which the tunnel was not stopped yet; the tunnel counts as stopped only during a pause and while
  -- it does not run; and the time of the pause is cleared outside a pause.
  pub handle_all-IsSound :
      (es : List Event) (s : PauseState) → IsSound s → IsSound (handle_all publishes me now es s)
  unfolding handle_all
  handle_all-IsSound [] s h = h
  handle_all-IsSound (e ∷ es) s h =
      handle_all-IsSound es (handle publishes me now e s) (handle-IsSound e s h)

  -- A running relay in a sound state that is not paused, when it is paused and then resumed before the
  -- wake-up, with its port available again, is as it was: its tunnel and its bindings are untouched, and
  -- the resume reports no change of the address, whether or not a tunnel could have been started.
  pub resume-pause :
      (time : ℕ) (attempt : Restart) (s : PauseState)
      → IsSound s
      → s.is_paused ≡ false
      → s.node.relay_running ≡ true
      → attempt ≢ port_unavailable
      → resume publishes me now attempt (pause time s).0 ≡ (s, ("resumed", false))
  unfolding resume pause restarted
  resume-pause time port_unavailable s h calm running port = absurd (port refl)
  resume-pause time no_tunnel s h calm running port =
      ground (arith, h.due, h.killed, h.timed calm, calm, running)
  resume-pause time (tunnel_at url) s h calm running port =
      ground (arith, h.due, h.killed, h.timed calm, calm, running)

  node_awake : RelayNode → RelayNode
  node_awake node = record node { relay_running = true; tunnel_url = none }

  resumed_late :
      (time : ℕ) (url : String) (s : PauseState)
      → s.is_paused ≡ false
      → s.node.relay_running ≡ true
      → is_tunnel_running s.node ≡ true
      → s.node.tunnel_enabled ≡ true
      → resume publishes me now (tunnel_at url) (kill_cloudflared (pause time s).0) ≡ (
        cleared (start_tunnel_and_reconcile publishes me now url (node_awake s.node)),
        ("resumed", true),
      )
  unfolding resume kill_cloudflared pause restarted restart_tunnel is_tunnel_running node_awake
  resumed_late time url s calm running tunnel enabled =
      ground (arith, calm, running, tunnel, enabled)

  -- A relay that is resumed after the wake-up stopped its tunnel, with the tunnel enabled and started
  -- under a new address, reports the change, tracks the new address, and leaves no group whose updates
  -- are published with an active binding of the old one. The table has one row for each group and
  -- address; the addresses are not blank, and differ when stripped.
  pub resume_after_grace :
      (time : ℕ) (url gid : String) (s : PauseState)
      → s.is_paused ≡ false
      → s.node.relay_running ≡ true
      → is_tunnel_running s.node ≡ true
      → s.node.tunnel_enabled ≡ true
      → Dicts.HasDistinctKeys s.node.bindings
      → publishes gid ≡ true
      → strip s.node.self_heal_url ≢ ""
      → strip url ≢ ""
      → strip s.node.self_heal_url ≢ strip url
      → let after = resume publishes me now (tunnel_at url) (kill_cloudflared (pause time s).0) in
        (after.1 ≡ ("resumed", true))
        × (after.0.node.self_heal_url ≡ url)
        × (is_active gid (strip s.node.self_heal_url) after.0.node.bindings ≡ false)
  unfolding node_awake
  resume_after_grace time url gid s calm running tunnel enabled distinct p a b c =
      let healed =
        start_tunnel_and_reconcile_heals publishes me now url gid (node_awake s.node) distinct p a b
          c in
      rw (resumed_late time url s calm running tunnel enabled) (refl, healed.1, healed.0)
