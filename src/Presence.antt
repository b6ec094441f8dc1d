-- ===== src/Presence.antt =====
-- nexus/telemetry/presence.py: the push-based table of the peers' last known status. The events that
-- are written to the database are listed in `log`.
pub mod Sweep
use mathlib.Core.Option
use nexus_grid_grid.Prelude.Dicts
use nexus_grid_grid.Prelude.{
  ℕ, ◌-◌, Bool, true, false, not, ◌&&◌, List, [], ◌∷◌, ◌++◌, Option, none, some, String, Dict,
  if◌then◌else◌, ltb, ◌==◌, text_key,
}

pub record Entry : Type 0 where
  pub online : Bool
  pub last_seen : ℕ
  pub source : String

-- `log` holds the peer, whether it came online, and the source.
pub record Presence : Type 0 where
  pub table : Dict String Entry
  pub log : List (String × Bool × String)

-- `prev == status`, where a peer without an entry has none.
unfoldable pub was : Bool → Option Entry → Bool
was status none = false
was true (some e) = e.online
was false (some e) = not e.online

unfoldable pub mark_peer : Bool → ℕ → String → String → Presence → Presence
unfolding was
mark_peer status now ip source p = if ip == "" then p else record {
  table = Dicts.insert ip (record { online = status; last_seen = now; source = source }) p.table;
  log = if was status (Dicts.get ip p.table) then p.log else p.log ++ (ip, status, source) ∷ [];
}

abbrev pub mark_peer_online : ℕ → String → String → Presence → Presence
mark_peer_online = mark_peer true

abbrev pub mark_peer_offline : ℕ → String → String → Presence → Presence
mark_peer_offline = mark_peer false

unfoldable pub is_peer_offline : Presence → String → Bool
unfolding was
is_peer_offline p ip = not (ip == "") && was false (Dicts.get ip p.table)

-- `sweep_once` walks a snapshot of the table; a time before `last_seen` counts as no delay.
unfoldable pub stale : ℕ → ℕ → Entry → Bool
stale now timeout e = e.online && ltb timeout (now - e.last_seen)

unfoldable pub sweep_each : ℕ → ℕ → Dict String Entry → Presence → List String × Presence
unfolding stale mark_peer
sweep_each now timeout [] p = ([], p)
sweep_each now timeout ((ip, e) ∷ rest) p =
    let demote = stale now timeout e in
    let (demoted, after) =
      sweep_each now timeout rest (if demote then mark_peer_offline now ip "timeout" p else p) in
    (if demote then ip ∷ demoted else demoted, after)

unfoldable pub sweep_once : ℕ → ℕ → Presence → List String × Presence
unfolding sweep_each
sweep_once now timeout p = sweep_each now timeout p.table p
