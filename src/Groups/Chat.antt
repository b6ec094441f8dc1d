-- ===== src/Groups/Chat.antt =====
-- The frames of the chat: `chat.message` and `chat.delete`.
use nexus_grid_grid.Prelude.Dicts
use nexus_grid_grid.Prelude.{
  Bool, true, false, not, ◌||◌, List, [], ◌∷◌, ◌++◌, none, some, String, if◌then◌else◌, ◌==◌,
  text_key, pair_key,
}
use nexus_grid_grid.Groups.{
  or_text, GroupNotice, replied, pull_attachment, Content, GroupMessage, Tables, tell,
}

unfoldable pub member_is_muted : String → String → Tables → Bool
member_is_muted group_id pubkey t = elim (Dicts.get (group_id, pubkey) t.members) [
  | none ↦ false
  | some row ↦ row.muted
]

unfoldable pub new_message : String → String → String → Content → GroupMessage
new_message now sender sent_at content = record {
  sender_pubkey = sender;
  content = content;
  sent_at = or_text sent_at now;
  received_at = now;
  deleted = false;
}

-- What the user interface is told of a message, and the pull of an attachment that is not in it.
unfoldable pub message_notices :
    String → String → String → String → Content → String → List GroupNotice
message_notices me sender group_id msg_id content reply_to_pubkey =
    replied group_id (reply_to_pubkey == me) content.sender_name
    ∷ (if content.attach_kind == "foreign" then pull_attachment group_id msg_id sender ∷ [] else [])

unfoldable pub put_message :
    String → String → String → String → String → Content → String → String → Tables → Tables
unfolding new_message message_notices
put_message now me sender group_id msg_id content sent_at reply_to_pubkey t = record t {
  messages = Dicts.insert (group_id, msg_id) (new_message now sender sent_at content) t.messages;
  notices = t.notices ++ message_notices me sender group_id msg_id content reply_to_pubkey;
}

unfoldable pub apply_chat_message :
    String
    → String
    → String
    → String
    → String
    → String
    → Content
    → String
    → String
    → Tables
    → Tables × Bool
unfolding member_is_muted put_message
apply_chat_message now me channel sender group_id msg_id content sent_at reply_to_pubkey t =
    if not (group_id == channel) || msg_id == ""
    then (t, false)
    else if member_is_muted group_id sender t
    then (t, false)
    else elim (Dicts.get (group_id, msg_id) t.messages) [
      | some row ↦ (t, true)
      | none ↦ (put_message now me sender group_id msg_id content sent_at reply_to_pubkey t, true)
    ]

-- The row of a message that its author deleted.
unfoldable pub tombstone : GroupMessage → GroupMessage
tombstone row = record row { content = record row.content { body = "" }; deleted = true }

unfoldable pub delete_row : String → String → String → GroupMessage → Tables → Tables × Bool
unfolding tombstone tell
delete_row sender group_id msg_id row t =
    if not (row.sender_pubkey == sender) then (t, false) else (
      tell "group.message" group_id
          (record t { messages = Dicts.insert (group_id, msg_id) (tombstone row) t.messages }),
      true,
    )

unfoldable pub apply_chat_delete : String → String → String → String → Tables → Tables × Bool
unfolding delete_row
apply_chat_delete channel sender group_id msg_id t =
    if not (group_id == channel) || msg_id == ""
    then (t, false)
    else elim (Dicts.get (group_id, msg_id) t.messages) [
      | none ↦ (t, true)
      | some row ↦ delete_row sender group_id msg_id row t
    ]
