-- ===== src/Groups/Messages.antt =====
-- The messages of the chat over any number of frames.
use nexus_grid_grid.Prelude.Dicts
use nexus_grid_grid.Prelude.{
  ◌≡◌, refl, sym, ap, ◌∙◌, Bool, true, false, not, inl, inr, List, none, some, String, ◌==◌,
  text_key, pair_key, beq_refl, arith,
}
use nexus_grid_grid.Groups.{GroupMessage, Tables, tell}
use nexus_grid_grid.Groups.Frames.{
  Payload, pending_request, pending_decision, roster_update, symkey_rotate, relay_update,
  roles_assign, roles_def, chat_message, chat_mute, chat_delete, presence_beacon, usage_receipt,
  group_meta, relay_code, unknown,
}
use nexus_grid_grid.Groups.Roster.{apply_chat_mute, set_muted, apply_presence_beacon}
use nexus_grid_grid.Groups.Roles.{
  apply_roles_assign, assign_roles, apply_roles_def, define_role, delete_role,
}
use nexus_grid_grid.Groups.Chat.{tombstone}
use nexus_grid_grid.Groups.Requests.{apply_pending_request, apply_pending_decision, decide_row}
use nexus_grid_grid.Groups.Relays.{
  apply_relay_update, change_relay, set_binding, apply_group_meta, set_avatar, apply_relay_code,
  put_code,
}
use nexus_grid_grid.Groups.Handlers.{GroupFrame, Outside, apply, apply_usage_receipt}
use nexus_grid_grid.Groups.Inbox.{InboxNode}
use nexus_grid_grid.Groups.Steps.{dispatch_all, OpensTo, dispatch_all-steps}
use nexus_grid_grid.Groups.Authors.{
  Stands, Stands-when_same, stands-chat_message, Stands-chat_delete, stands-roster_update,
  stands-symkey_rotate,
}

-- The frames of other kinds leave the chat.
abbrev is_chat : Payload → Bool
is_chat (roster_update group_id action member) = true
is_chat (symkey_rotate group_id kicked_pubkey my_envelope) = true
is_chat (chat_message group_id msg_id content sent_at reply_to_pubkey) = true
is_chat (chat_delete group_id msg_id) = true
is_chat payload = false

messages-apply :
    (o : Outside) (now channel sender : String) (payload : Payload) (t : Tables)
    → is_chat payload ≡ false
    → (apply o now channel sender payload t).0.messages ≡ t.messages
unfolding apply apply_pending_request apply_pending_decision decide_row apply_chat_mute set_muted
    apply_presence_beacon apply_roles_assign assign_roles apply_roles_def define_role delete_role
    apply_relay_update change_relay set_binding apply_group_meta set_avatar apply_relay_code
    put_code apply_usage_receipt tell
messages-apply o now channel sender (pending_request g id details at) t h = ground arith
messages-apply o now channel sender (pending_decision g id v) t h = ground arith
messages-apply o now channel sender (roster_update g action m) t h = ground arith
messages-apply o now channel sender (symkey_rotate g kicked envelope) t h = ground arith
messages-apply o now channel sender (relay_update g c) t h = ground arith
messages-apply o now channel sender (chat_message g id content at to) t h = ground arith
messages-apply o now channel sender (chat_mute g target muted) t h = ground arith
messages-apply o now channel sender (chat_delete g id) t h = ground arith
messages-apply o now channel sender (presence_beacon ts) t h = ground arith
messages-apply o now channel sender (usage_receipt r sig) t h = ground arith
messages-apply o now channel sender (unknown frame_type) t h = refl
messages-apply o now channel sender (roles_assign g p roles at) t h = ground arith
messages-apply o now channel sender (roles_def g op name perms at) t h = ground arith
messages-apply o now channel sender (group_meta g none) t h = refl
messages-apply o now channel sender (group_meta g (some avatar)) t h = ground arith
messages-apply o now channel sender (relay_code g source at) t h = ground arith

apply-Stands :
    (o : Outside) (now channel sender : String) (payload : Payload) (t : Tables)
    (key : String × String) (row : GroupMessage)
    → Dicts.get key t.messages ≡ some row
    → Stands sender key row (apply o now channel sender payload t).0.messages
unfolding apply
apply-Stands o now channel sender (roster_update g action m) t key row h =
    inl (stands-roster_update now channel sender g action m key row t h)
apply-Stands o now channel sender (symkey_rotate g kicked envelope) t key row h =
    inl (stands-symkey_rotate o.reseal now o.me channel sender g kicked envelope key row t h)
apply-Stands o now channel sender (chat_message g id content at to) t key row h =
    inl (stands-chat_message now o.me channel sender g id content at to key row t h)
apply-Stands o now channel sender (chat_delete g id) t key row h =
    Stands-chat_delete channel sender g id row key t h
apply-Stands o now channel sender payload t key row h =
    Stands-when_same sender key row t.messages (apply o now channel sender payload t).0.messages h
      (messages-apply o now channel sender payload t refl)

-- Anyone but one.
abbrev pub others : String → String → Bool
others author sender = not (sender == author)

-- A message that is there stays as it is, text and all, whatever frames others than its author send:
-- messages with the same id, deletions, kicks, mutes or changes of roles.
pub dispatch_all-message :
    (o : Outside) (author : String)
    → OpensTo (others author) o
    → (frames : List (String × GroupFrame)) (n : InboxNode) (key : String × String)
      (row : GroupMessage)
    → row.sender_pubkey ≡ author
    → Dicts.get key n.tables.messages ≡ some row
    → Dicts.get key (dispatch_all o frames n).tables.messages ≡ some row
dispatch_all-message o author opens frames n key row =
    dispatch_all-steps (others author) o opens
      (λ before after.
        row.sender_pubkey ≡ author
        → Dicts.get key before.messages ≡ some row
        → Dicts.get key after.messages ≡ some row)
      (λ t written h. h)
      (λ now f t other allowed written h.
        elim (apply-Stands o now f.channel f.sender_pubkey f.payload t key row h) [
          | inl kept ↦ kept
          | inr deleted ↦ ground (
            arith,
            other,
            beq_refl f.sender_pubkey,
            sym written ∙ deleted.0,
            ap (λ s. s == author) (sym (sym written ∙ deleted.0)),
            beq_refl author,
          )
        ])
      (λ r s t one two written h. two written (one written h)) frames n

-- A row whose author deleted it.
abbrev pub IsDeleted : GroupMessage → Type 0
IsDeleted row = (row.deleted ≡ true) × (row.content.body ≡ "")

-- A deleted message stays deleted, without its text, whatever frames come, its own redelivery
-- included.
pub dispatch_all-IsDeleted :
    (o : Outside) (frames : List (String × GroupFrame)) (n : InboxNode) (key : String × String)
    (row : GroupMessage)
    → Dicts.get key n.tables.messages ≡ some row
    → IsDeleted row
    → (last : GroupMessage) × ((Dicts.get key (dispatch_all o frames n).tables.messages ≡ some last)
        × IsDeleted last)
unfolding tombstone
dispatch_all-IsDeleted o frames n key row h gone =
    dispatch_all-steps (λ sender. true) o (λ frame symkey admins f e. refl)
      (λ before after.
        ((first : GroupMessage) × ((Dicts.get key before.messages ≡ some first) × IsDeleted first))
        → (last : GroupMessage) × ((Dicts.get key after.messages ≡ some last) × IsDeleted last))
      (λ t given. given)
      (λ now f t member allowed given.
        elim (apply-Stands o now f.channel f.sender_pubkey f.payload t key given.0 given.1.0) [
          | inl kept ↦ (given.0, (kept, given.1.1))
          | inr deleted ↦ (tombstone given.0, (deleted.1, (refl, refl)))
        ])
      (λ r s t one two given. two (one given)) frames n (row, (h, gone))
