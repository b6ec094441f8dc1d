-- ===== src/Groups/Authors.antt =====
-- What becomes of the messages of the chat that are there.
use nexus_grid_grid.Prelude.Dicts
use nexus_grid_grid.Prelude.{
  ◌≡◌, refl, sym, ap, ◌∙◌, not, ◌||◌, ◌⊎◌, inl, inr, Option, none, some, String, Dict, ◌==◌,
  text_key, pair_key, Bool-cases, Option-cases, eq_of_beq, some_injective, arith,
}
use nexus_grid_grid.Groups.{Content, GroupMessage, Tables, tell}
use nexus_grid_grid.Groups.Frames.{NewMember}
use nexus_grid_grid.Groups.Roster.{
  apply_roster_update, put_member, new_row, put_default_role, join_line, apply_symkey_rotate,
  leave_line, drop_member, adopt_symkey, system_message,
}
use nexus_grid_grid.Groups.Chat.{
  apply_chat_message, member_is_muted, put_message, apply_chat_delete, delete_row, tombstone,
}

abbrev pub Messages : Type 0
Messages = Dict (String × String) GroupMessage

-- The row stays, or its author deletes it.
abbrev pub Stands : String → String × String → GroupMessage → Messages → Type 0
Stands sender key row after =
    (Dicts.get key after ≡ some row)
    ⊎ ((row.sender_pubkey ≡ sender) × (Dicts.get key after ≡ some (tombstone row)))

get-insert_new :
    (k j : String × String) (v row : GroupMessage) (m : Messages)
    → Dicts.get k m ≡ none
    → Dicts.get j m ≡ some row
    → Dicts.get j (Dicts.insert k v m) ≡ some row
get-insert_new k j v row m absent present =
    ground (arith, Dicts.get-insert k j v m, Dicts.get_same k j m)

pub Stands-when_same :
    (sender : String) (key : String × String) (row : GroupMessage) (before after : Messages)
    → Dicts.get key before ≡ some row
    → after ≡ before
    → Stands sender key row after
Stands-when_same sender key row before after h e = inl (ap (Dicts.get key) e ∙ h)

pub stands-system_message :
    (sender now g id body : String) (key : String × String) (row : GroupMessage) (t : Tables)
    → Dicts.get key t.messages ≡ some row
    → Dicts.get key (system_message now g id body t).messages ≡ some row
unfolding system_message
stands-system_message sender now g id body key row t h =
    elim (Option-cases (Dicts.get (g, id) t.messages)) [
      | inr found ↦ rw (system_message, found.1) h
      | inl absent ↦
          rw (system_message, absent) (get-insert_new (g, id) key _ row t.messages absent h)
    ]

pub stands-chat_message :
    (now me channel sender g id : String) (content : Content) (at to : String)
    (key : String × String) (row : GroupMessage) (t : Tables)
    → Dicts.get key t.messages ≡ some row
    → Dicts.get key (apply_chat_message now me channel sender g id content at to t).0.messages
      ≡ some row
unfolding apply_chat_message put_message
stands-chat_message now me channel sender g id content at to key row t h =
    elim (Bool-cases (not (g == channel) || id == "")) [
      | inl e ↦ rw e h
      | inr e ↦ rw e (elim (Bool-cases (member_is_muted g sender t)) [
        | inl muted ↦ rw muted h
        | inr heard ↦ rw heard (elim (Option-cases (Dicts.get (g, id) t.messages)) [
          | inr found ↦ rw found.1 h
          | inl absent ↦ rw absent (get-insert_new (g, id) key _ row t.messages absent h)
        ])
      ])
    ]

pub Stands-deleted :
    (sender g id : String) (found row : GroupMessage) (key : String × String) (t : Tables)
    → Dicts.get (g, id) t.messages ≡ some found
    → Dicts.get key t.messages ≡ some row
    → Stands sender key row (delete_row sender g id found t).0.messages
unfolding delete_row tell
Stands-deleted sender g id found row key t at_id h =
    elim (Bool-cases (found.sender_pubkey == sender)) [
      | inr other ↦ rw other (inl h)
      | inl author ↦ rw author (elim (Bool-cases ((g, id) == key)) [
        | inr elsewhere ↦
            inl (Dicts.get-insert (g, id) key (tombstone found) t.messages ∙ rw elsewhere h)
        | inl here ↦
            let same =
              some_injective found row
                (sym at_id ∙ Dicts.get_same (g, id) key t.messages here ∙ h) in
            inr (
              ap (λ r. r.sender_pubkey) (sym same) ∙ eq_of_beq found.sender_pubkey sender author,
              Dicts.get-insert (g, id) key (tombstone found) t.messages
                  ∙ rw here (ap (λ r. some (tombstone r)) same),
            )
      ])
    ]

pub Stands-chat_delete :
    (channel sender g id : String) (row : GroupMessage) (key : String × String) (t : Tables)
    → Dicts.get key t.messages ≡ some row
    → Stands sender key row (apply_chat_delete channel sender g id t).0.messages
unfolding apply_chat_delete
Stands-chat_delete channel sender g id row key t h =
    elim (Bool-cases (not (g == channel) || id == "")) [
      | inl e ↦ rw e (inl h)
      | inr e ↦ rw e (elim (Option-cases (Dicts.get (g, id) t.messages)) [
        | inl absent ↦ rw absent (inl h)
        | inr found ↦ rw found.1 (Stands-deleted sender g id found.0 row key t found.1 h)
      ])
    ]

messages-put_default_role :
    (key : String × String) (now sender g p : String) (t : Tables)
    → Dicts.get key (put_default_role now sender g p t).messages ≡ Dicts.get key t.messages
unfolding put_default_role
messages-put_default_role key now sender g p t = ground arith

messages-adopt_symkey :
    (key : String × String) (reseal : String → Option String) (g : String)
    (envelope : Option String) (t : Tables)
    → Dicts.get key (adopt_symkey reseal g envelope t).messages ≡ Dicts.get key t.messages
unfolding adopt_symkey
messages-adopt_symkey key reseal g none t = refl
messages-adopt_symkey key reseal g (some envelope) t = ground arith

pub stands-put_member :
    (now g : String) (m : NewMember) (key : String × String) (row : GroupMessage) (t : Tables)
    → Dicts.get key t.messages ≡ some row
    → Dicts.get key (put_member now g m t).messages ≡ some row
unfolding put_member join_line
stands-put_member now g m key row t h = elim (Option-cases (Dicts.get (g, m.pubkey) t.members)) [
  | inr found ↦ rw (put_member, found.1) h
  | inl absent ↦
      rw (put_member, absent)
        (stands-system_message "system" now g _ _ key row
          (record t { members = Dicts.insert (g, m.pubkey) (new_row now m) t.members }) h)
]

-- The rows of the chat after a roster update and after a rotation of the key.
pub stands-roster_update :
    (now channel sender g action : String) (m : NewMember) (key : String × String)
    (row : GroupMessage) (t : Tables)
    → Dicts.get key t.messages ≡ some row
    → Dicts.get key (apply_roster_update now channel sender g action m t).0.messages ≡ some row
unfolding apply_roster_update tell
stands-roster_update now channel sender g action m key row t h =
    elim (Bool-cases (not (g == channel) || not (action == "add") || m.pubkey == "")) [
      | inl e ↦ rw e h
      | inr e ↦ rw e (
          messages-put_default_role key now sender g m.pubkey (put_member now g m t)
          ∙ stands-put_member now g m key row t h)
    ]

pub stands-leave_line :
    (now sender g kicked : String) (key : String × String) (row : GroupMessage) (t : Tables)
    → Dicts.get key t.messages ≡ some row
    → Dicts.get key (leave_line now sender g kicked t).messages ≡ some row
unfolding leave_line
stands-leave_line now sender g kicked key row t h =
    stands-system_message sender now g _ _ key row t h

pub stands-symkey_rotate :
    (reseal : String → Option String) (now me channel sender g kicked : String)
    (envelope : Option String) (key : String × String) (row : GroupMessage) (t : Tables)
    → Dicts.get key t.messages ≡ some row
    → Dicts.get key
        (apply_symkey_rotate reseal now me channel sender g kicked envelope t).0.messages
      ≡ some row
unfolding apply_symkey_rotate tell drop_member
stands-symkey_rotate reseal now me channel sender g kicked envelope key row t h =
    let adopted = adopt_symkey reseal g envelope t in
    let kept = messages-adopt_symkey key reseal g envelope t ∙ h in
    elim (Bool-cases (not (g == channel))) [
      | inl e ↦ rw e h
      | inr e ↦ rw e (elim (Bool-cases (kicked == "" || kicked == me)) [
        | inl f ↦ rw f kept
        | inr f ↦ rw f (stands-leave_line now sender g kicked key row adopted kept)
      ])
    ]
