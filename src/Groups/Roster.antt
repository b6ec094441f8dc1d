-- ===== src/Groups/Roster.antt =====
-- The frames about members: `roster.update`, `symkey.rotate`, `chat.mute` and `presence.beacon`.
use nexus_grid_grid.Prelude.Dicts
use nexus_grid_grid.Prelude.Text.{append_text, take_text}
use nexus_grid_grid.Prelude.{
  Bool, true, false, not, ◌&&◌, ◌||◌, Option, none, some, String, select, if◌then◌else◌, ◌==◌,
  text_key, pair_key,
}
use nexus_grid_grid.Prelude.Int.{pos}
use nexus_grid_grid.Groups.{
  text_less, or_text, GroupMember, Tables, tell, has_permission, perm_member_kick,
}
use nexus_grid_grid.Groups.Frames.{NewMember}

-- A line of the chat that the node writes itself, under its id, unless it is there.
unfoldable pub system_message : String → String → String → String → Tables → Tables
system_message now group_id msg_id body t = elim (Dicts.get (group_id, msg_id) t.messages) [
  | some row ↦ t
  | none ↦ record t {
    messages =
        Dicts.insert (group_id, msg_id)
          (record {
            sender_pubkey = "system";
            content = record {
              sender_name = "";
              body = body;
              reply_to = "";
              reply_snippet = "";
              reply_sender = "";
              attach_kind = "";
              attach_name = "";
              attach_mime = "";
              attach_size = pos 0;
              attach_data = "";
            };
            sent_at = now;
            received_at = now;
            deleted = false;
          })
          t.messages;
  }
]

unfoldable pub new_row : String → NewMember → GroupMember
new_row now m = record {
  joined_at = or_text m.joined_at now;
  display_name = m.display_name;
  peer_address = m.peer_address;
  node_id = m.node_id;
  muted = false;
  last_seen_at = now;
}

-- What is given replaces what is known.
unfoldable pub refresh_row : NewMember → GroupMember → GroupMember
refresh_row m row = record row {
  display_name = or_text m.display_name row.display_name;
  peer_address = or_text m.peer_address row.peer_address;
  node_id = or_text m.node_id row.node_id;
}

unfoldable pub join_line : String → String → NewMember → Tables → Tables
unfolding system_message
join_line now group_id m t =
    system_message now group_id
      (append_text "sysjoin-" (append_text m.pubkey (append_text "-" (or_text m.joined_at now))))
      (append_text (or_text m.display_name (take_text 8 m.pubkey)) " joined the chat") t

unfoldable pub put_member : String → String → NewMember → Tables → Tables
unfolding new_row refresh_row join_line
put_member now group_id m t = elim (Dicts.get (group_id, m.pubkey) t.members) [
  | none ↦
      join_line now group_id m
        (record t { members = Dicts.insert (group_id, m.pubkey) (new_row now m) t.members })
  | some row ↦ record t {
    members = Dicts.insert (group_id, m.pubkey) (refresh_row m row) t.members;
  }
]

-- The default role, unless the member holds it.
unfoldable pub put_default_role : String → String → String → String → Tables → Tables
put_default_role now sender group_id pubkey t =
    elim (Dicts.get ((group_id, pubkey), "member") t.assignments) [
      | some row ↦ t
      | none ↦ record t {
        assignments =
            Dicts.insert ((group_id, pubkey), "member")
              (record { assigned_by_pubkey = sender; assigned_at = now }) t.assignments;
      }
    ]

unfoldable pub apply_roster_update :
    String → String → String → String → String → NewMember → Tables → Tables × Bool
unfolding put_member put_default_role tell
apply_roster_update now channel sender group_id action m t =
    if not (group_id == channel) || not (action == "add") || m.pubkey == "" then (t, false) else (
      tell "group.roster" group_id
          (put_default_role now sender group_id m.pubkey (put_member now group_id m t)),
      true,
    )

-- The new key, where an envelope for this node opens; `reseal` opens it and seals the key again.
unfoldable pub adopt_symkey : (String → Option String) → String → Option String → Tables → Tables
adopt_symkey reseal group_id none t = t
adopt_symkey reseal group_id (some envelope) t = elim (Dicts.get group_id t.groups) [
  | none ↦ t
  | some g ↦ elim (reseal envelope) [
    | none ↦ t
    | some key ↦ record t {
      groups = Dicts.insert group_id (record g { group_symkey = some key }) t.groups;
    }
  ]
]

unfoldable pub leave_line : String → String → String → String → Tables → Tables
unfolding system_message
leave_line now sender group_id kicked t =
    let known : String = elim (Dicts.get (group_id, kicked) t.members) [
      | none ↦ ""
      | some row ↦ row.display_name
    ] in
    system_message now group_id
      (append_text "sysleave-" (append_text kicked (append_text "-" (take_text 19 now))))
      (append_text (or_text known (take_text 8 kicked)) (
        append_text " "
          (if sender == kicked then "left the chat" else "was removed from the chat")))
      t

-- The rows of a member that is gone.
unfoldable pub drop_member : String → String → Tables → Tables
drop_member group_id kicked t = record t {
  members = Dicts.erase (group_id, kicked) t.members;
  assignments = select (λ e. not (e.0.0.0 == group_id && e.0.0.1 == kicked)) t.assignments;
  grants = Dicts.erase (group_id, kicked) t.grants;
}

unfoldable pub apply_symkey_rotate :
    (String → Option String)
    → String
    → String
    → String
    → String
    → String
    → String
    → Option String
    → Tables
    → Tables × Bool
unfolding adopt_symkey leave_line drop_member tell
apply_symkey_rotate reseal now me channel sender group_id kicked my_envelope t =
    let adopted = adopt_symkey reseal group_id my_envelope t in
    if not (group_id == channel)
    then (t, false)
    else if kicked == "" || kicked == me
    then (tell "group.roster" group_id adopted, true)
    else (
      tell "group.roster" group_id
          (drop_member group_id kicked (leave_line now sender group_id kicked adopted)),
      true,
    )

-- A kick needs the permission; a member may leave.
unfoldable pub rotate_sender_authorized : String → String → String → Tables → Bool
unfolding has_permission
rotate_sender_authorized channel sender kicked t =
    (not (kicked == "") && kicked == sender) || has_permission t channel sender perm_member_kick

unfoldable pub set_muted : String → String → Bool → Tables → Tables × Bool
unfolding tell
set_muted group_id target muted t = elim (Dicts.get (group_id, target) t.members) [
  | none ↦ (t, false)
  | some row ↦ (
    tell "group.roster" group_id (record t {
      members = Dicts.insert (group_id, target) (record row { muted = muted }) t.members;
    }),
    true,
  )
]

unfoldable pub apply_chat_mute : String → String → String → Bool → Tables → Tables × Bool
unfolding set_muted
apply_chat_mute channel group_id target muted t =
    if not (group_id == channel) || target == ""
    then (t, false)
    else set_muted group_id target muted t

-- The time stamp, no later than now.
unfoldable pub clamped : String → String → String
unfolding text_less
clamped now ts = let given = or_text ts now in if text_less now given then now else given

unfoldable pub apply_presence_beacon : String → String → String → String → Tables → Tables × Bool
unfolding clamped text_less
apply_presence_beacon now channel sender ts t = elim (Dicts.get (channel, sender) t.members) [
  | none ↦ (t, false)
  | some row ↦ (
    if text_less row.last_seen_at (clamped now ts)
        then record t {
          members =
              Dicts.insert (channel, sender) (record row { last_seen_at = clamped now ts })
                t.members;
        }
        else t,
    true,
  )
]
