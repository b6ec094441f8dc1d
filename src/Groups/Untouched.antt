-- ===== src/Groups/Untouched.antt =====
-- The handlers that change neither the roles of a group nor who holds them.
use nexus_grid_grid.Prelude.{◌≡◌, refl, Bool, Option, none, some, String, text_key, pair_key, arith}
use nexus_grid_grid.Usage.{Receipt}
use nexus_grid_grid.Groups.{JoinDetails, Content, Roles, Assignments, Tables, tell}
use nexus_grid_grid.Groups.Frames.{RelayChange}
use nexus_grid_grid.Groups.Roster.{
  apply_chat_mute, set_muted, apply_presence_beacon, system_message, adopt_symkey,
}
use nexus_grid_grid.Groups.Chat.{apply_chat_message, put_message, apply_chat_delete, delete_row}
use nexus_grid_grid.Groups.Requests.{
  apply_pending_request, apply_pending_decision, decide_row, Verdict,
}
use nexus_grid_grid.Groups.Relays.{apply_relay_update, change_relay, set_binding}
use nexus_grid_grid.Groups.Handlers.{apply_usage_receipt}

-- What decides who may do what.
abbrev pub powers : Tables → Roles × Assignments
powers t = (t.roles, t.assignments)

pub powers-pending_request :
    (now channel g id : String) (details : JoinDetails) (at : String) (t : Tables)
    → powers (apply_pending_request now channel g id details at t).0 ≡ powers t
unfolding apply_pending_request tell
powers-pending_request now channel g id details at t = ground arith

pub powers-pending_decision :
    (now channel g id : String) (v : Verdict) (t : Tables)
    → powers (apply_pending_decision now channel g id v t).0 ≡ powers t
unfolding apply_pending_decision decide_row tell
powers-pending_decision now channel g id v t = ground arith

pub powers-chat_message :
    (now me channel sender g id : String) (content : Content) (at to : String) (t : Tables)
    → powers (apply_chat_message now me channel sender g id content at to t).0 ≡ powers t
unfolding apply_chat_message put_message
powers-chat_message now me channel sender g id content at to t = ground arith

pub powers-chat_mute :
    (channel g target : String) (muted : Bool) (t : Tables)
    → powers (apply_chat_mute channel g target muted t).0 ≡ powers t
unfolding apply_chat_mute set_muted tell
powers-chat_mute channel g target muted t = ground arith

pub powers-chat_delete :
    (channel sender g id : String) (t : Tables)
    → powers (apply_chat_delete channel sender g id t).0 ≡ powers t
unfolding apply_chat_delete delete_row tell
powers-chat_delete channel sender g id t = ground arith

pub powers-presence_beacon :
    (now channel sender ts : String) (t : Tables)
    → powers (apply_presence_beacon now channel sender ts t).0 ≡ powers t
unfolding apply_presence_beacon
powers-presence_beacon now channel sender ts t = ground arith

pub powers-usage_receipt :
    (verify : Receipt → String → Bool) (me now channel : String) (r : Receipt) (sig : String)
    (t : Tables)
    → powers (apply_usage_receipt verify me now channel r sig t).0 ≡ powers t
unfolding apply_usage_receipt tell
powers-usage_receipt verify me now channel r sig t = ground arith

pub powers-relay_update :
    (now channel sender g : String) (c : RelayChange) (t : Tables)
    → powers (apply_relay_update now channel sender g c t).0 ≡ powers t
unfolding apply_relay_update change_relay set_binding tell
powers-relay_update now channel sender g c t = ground arith

pub powers-system_message :
    (now g id body : String) (t : Tables) → powers (system_message now g id body t) ≡ powers t
unfolding system_message
powers-system_message now g id body t = ground arith

pub powers-adopt_symkey :
    (reseal : String → Option String) (g : String) (envelope : Option String) (t : Tables)
    → powers (adopt_symkey reseal g envelope t) ≡ powers t
unfolding adopt_symkey
powers-adopt_symkey reseal g none t = refl
powers-adopt_symkey reseal g (some envelope) t = ground arith
