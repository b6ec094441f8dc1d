-- ===== src/Groups/Handlers.antt =====
-- The handlers of runtime/group_inbox.py, each behind the gate that the dispatch puts before it.
use nexus_grid_grid.Prelude.Text.{append_text}
use nexus_grid_grid.Prelude.{
  Bool, true, false, List, Option, none, some, ◌⊎◌, String, if◌then◌else◌, text_key, pair_key,
}
use nexus_grid_grid.Usage.{Receipt, store_and_apply}
use nexus_grid_grid.Groups.{Tables, tell, has_permission, perm_role_assign, perm_member_mute}
use nexus_grid_grid.Groups.Frames.{
  Payload, pending_request, pending_decision, roster_update, symkey_rotate, relay_update,
  roles_assign, roles_def, chat_message, chat_mute, chat_delete, presence_beacon, usage_receipt,
  group_meta, relay_code, unknown, OpenedFrame,
}
use nexus_grid_grid.Groups.Roster.{
  apply_roster_update, apply_symkey_rotate, rotate_sender_authorized, apply_chat_mute,
  apply_presence_beacon,
}
use nexus_grid_grid.Groups.Roles.{apply_roles_assign, apply_roles_def}
use nexus_grid_grid.Groups.Chat.{apply_chat_message, apply_chat_delete}
use nexus_grid_grid.Groups.Requests.{apply_pending_request, apply_pending_decision}
use nexus_grid_grid.Groups.Relays.{
  apply_relay_update, relay_update_sender_authorized, apply_group_meta, apply_relay_code,
}

-- An envelope as it arrives.
pub record GroupFrame : Type 0 where
  pub frame_id : String
  pub channel : String
  pub frame_type : String
  pub sender_grant_b64 : String
  pub nonce_b64 : String
  pub ciphertext_b64 : String
  pub signature_b64 : String

-- What the inbox calls outside: the checks and seals of the security package, and the node's key.
pub record Outside : Type 0 where
  pub me : String
  pub open_symkey : String → Option String
  pub reseal : String → Option String
  pub open_frame : GroupFrame → String → List String → String ⊎ OpenedFrame
  pub verify : Receipt → String → Bool
  pub fingerprint_for_bytes : String → String

unfoldable pub type_of : Payload → String
type_of (pending_request group_id request_id details created_at) = "pending.request"
type_of (pending_decision group_id request_id verdict) = "pending.decision"
type_of (roster_update group_id action member) = "roster.update"
type_of (symkey_rotate group_id kicked_pubkey my_envelope) = "symkey.rotate"
type_of (relay_update group_id change) = "relay.update"
type_of (roles_assign group_id member_pubkey roles assigned_at) = "roles.assign"
type_of (roles_def group_id op role_name permissions updated_at) = "roles.def"
type_of (chat_message group_id msg_id content sent_at reply_to_pubkey) = "chat.message"
type_of (chat_mute group_id member_pubkey muted) = "chat.mute"
type_of (chat_delete group_id msg_id) = "chat.delete"
type_of (presence_beacon ts) = "presence.beacon"
type_of (usage_receipt receipt sig) = "usage.receipt"
type_of (group_meta group_id avatar) = "group.meta"
type_of (relay_code group_id source published_at) = "relay.code"
type_of (unknown frame_type) = frame_type

unfoldable pub governed : Bool → String → Option String
governed allowed reason = if allowed then none else some reason

-- The permission that a frame needs of its sender; the reason of the refusal, where it is missing.
unfoldable pub refusal : String → String → Payload → Tables → Option String
unfolding rotate_sender_authorized relay_update_sender_authorized has_permission governed
refusal channel sender (symkey_rotate group_id kicked my_envelope) t =
    governed (rotate_sender_authorized channel sender kicked t)
      "sender lacks member:kick (and not a self-leave)"
refusal channel sender (relay_update group_id change) t =
    governed (relay_update_sender_authorized channel sender change.action t)
      "sender lacks relay:host / relay:share_content"
refusal channel sender (roles_assign group_id member_pubkey roles assigned_at) t =
    governed (has_permission t channel sender perm_role_assign) "sender lacks role:assign"
refusal channel sender (roles_def group_id op role_name permissions updated_at) t =
    governed (has_permission t channel sender perm_role_assign) "sender lacks role:assign"
refusal channel sender (group_meta group_id avatar) t =
    governed (has_permission t channel sender perm_role_assign) "sender lacks role:assign"
refusal channel sender (relay_code group_id source published_at) t =
    governed (has_permission t channel sender perm_role_assign) "sender lacks role:assign"
refusal channel sender (chat_mute group_id member_pubkey muted) t =
    governed (has_permission t channel sender perm_member_mute) "sender lacks member:mute"
refusal channel sender (unknown frame_type) t = some (append_text "unknown frame_type: " frame_type)
refusal channel sender (pending_request group_id request_id details created_at) t = none
refusal channel sender (pending_decision group_id request_id verdict) t = none
refusal channel sender (roster_update group_id action member) t = none
refusal channel sender (chat_message group_id msg_id content sent_at reply_to_pubkey) t = none
refusal channel sender (chat_delete group_id msg_id) t = none
refusal channel sender (presence_beacon ts) t = none
refusal channel sender (usage_receipt receipt sig) t = none

unfoldable pub apply_usage_receipt :
    (Receipt → String → Bool) → String → String → String → Receipt → String → Tables → Tables × Bool
unfolding store_and_apply tell
apply_usage_receipt verify me now channel receipt sig t =
    let after =
      store_and_apply verify me (record { at = now; receipt = receipt; sig = sig }) t.ledger in
    if after.1
    then (tell "group.pool_stats" channel (record t { ledger = after.0 }), true)
    else (record t { ledger = after.0 }, true)

-- The handlers, behind their gates.
unfoldable pub apply : Outside → String → String → String → Payload → Tables → Tables × Bool
unfolding apply_pending_request apply_pending_decision apply_roster_update apply_symkey_rotate
    apply_relay_update apply_roles_assign apply_roles_def apply_chat_message apply_chat_mute
    apply_chat_delete apply_presence_beacon apply_usage_receipt apply_group_meta apply_relay_code
apply o now channel sender (pending_request group_id request_id details created_at) t =
    apply_pending_request now channel group_id request_id details created_at t
apply o now channel sender (pending_decision group_id request_id verdict) t =
    apply_pending_decision now channel group_id request_id verdict t
apply o now channel sender (roster_update group_id action member) t =
    apply_roster_update now channel sender group_id action member t
apply o now channel sender (symkey_rotate group_id kicked my_envelope) t =
    apply_symkey_rotate o.reseal now o.me channel sender group_id kicked my_envelope t
apply o now channel sender (relay_update group_id change) t =
    apply_relay_update now channel sender group_id change t
apply o now channel sender (roles_assign group_id member_pubkey roles assigned_at) t =
    apply_roles_assign now channel sender group_id member_pubkey roles assigned_at t
apply o now channel sender (roles_def group_id op role_name permissions updated_at) t =
    apply_roles_def now channel group_id op role_name permissions updated_at t
apply o now channel sender (chat_message group_id msg_id content sent_at reply_to_pubkey) t =
    apply_chat_message now o.me channel sender group_id msg_id content sent_at reply_to_pubkey t
apply o now channel sender (chat_mute group_id member_pubkey muted) t =
    apply_chat_mute channel group_id member_pubkey muted t
apply o now channel sender (chat_delete group_id msg_id) t =
    apply_chat_delete channel sender group_id msg_id t
apply o now channel sender (presence_beacon ts) t = apply_presence_beacon now channel sender ts t
apply o now channel sender (usage_receipt receipt sig) t =
    apply_usage_receipt o.verify o.me now channel receipt sig t
apply o now channel sender (group_meta group_id avatar) t =
    apply_group_meta channel group_id avatar t
apply o now channel sender (relay_code group_id source published_at) t =
    apply_relay_code o.fingerprint_for_bytes now channel sender group_id source published_at t
apply o now channel sender (unknown frame_type) t = (t, false)
