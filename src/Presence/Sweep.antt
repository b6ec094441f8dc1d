-- ===== src/Presence/Sweep.antt =====
-- What the marks and the sweep do to each peer.
use nexus_grid_grid.Prelude.Dicts
use nexus_grid_grid.Prelude.{
  ℕ, Bool, not, ◌≡◌, ◌≢◌, String, if◌then◌else◌, ◌==◌, text_key, arith, beq_false, eq_of_beq,
}
use nexus_grid_grid.Presence.{Presence, was, mark_peer, is_peer_offline}

-- A peer is skipped after it was marked exactly if the mark was offline; the others are as before.
pub is_peer_offline-mark_peer :
    (status : Bool) (now : ℕ) (ip peer source : String) (p : Presence)
    → ip ≢ ""
    → is_peer_offline (mark_peer status now ip source p) peer
      ≡ (if ip == peer then not status else is_peer_offline p peer)
unfolding is_peer_offline mark_peer was
is_peer_offline-mark_peer status now ip peer source p n = ground (
  arith,
  beq_false ip "" n,
  eq_of_beq ip peer,
  Dicts.get-insert ip peer (record { online = status; last_seen = now; source = source }) p.table,
)
