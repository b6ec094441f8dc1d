-- ===== src/Groups/Fates.antt =====
-- What becomes of the requests to join over any number of frames.
use nexus_grid_grid.Prelude.Dicts
use nexus_grid_grid.Prelude.{
  ◌≡◌, refl, sym, ap, ◌∙◌, Bool, true, false, not, ◌||◌, ◌⊎◌, inl, inr, List, Option, none, some,
  String, Dict, ◌==◌, text_key, pair_key, eq_of_beq, Bool-cases, Option-cases, some_injective,
  arith,
}
use nexus_grid_grid.Groups.{GroupPendingJoinRequest, JoinDetails, Tables, tell}
use nexus_grid_grid.Groups.Frames.{
  Payload, pending_request, pending_decision, symkey_rotate, group_meta,
}
use nexus_grid_grid.Groups.Roster.{
  apply_roster_update, put_member, put_default_role, join_line, apply_symkey_rotate, leave_line,
  drop_member, adopt_symkey, system_message, apply_chat_mute, set_muted, apply_presence_beacon,
}
use nexus_grid_grid.Groups.Roles.{
  apply_roles_assign, assign_roles, apply_roles_def, define_role, delete_role,
}
use nexus_grid_grid.Groups.Chat.{apply_chat_message, put_message, apply_chat_delete, delete_row}
use nexus_grid_grid.Groups.Requests.{
  Verdict, decided, apply_pending_request, apply_pending_decision, decide_row,
}
use nexus_grid_grid.Groups.Relays.{
  apply_relay_update, change_relay, set_binding, apply_group_meta, set_avatar, apply_relay_code,
  put_code,
}
use nexus_grid_grid.Groups.Handlers.{GroupFrame, Outside, apply, apply_usage_receipt}
use nexus_grid_grid.Groups.Inbox.{InboxNode}
use nexus_grid_grid.Groups.Steps.{dispatch_all, dispatch_all-steps}

abbrev pub Requests : Type 0
Requests = Dict String GroupPendingJoinRequest

-- The row stays, or it was pending and one decision is written into it.
abbrev pub Fate : String → GroupPendingJoinRequest → Requests → Type 0
Fate id row after =
    (Dicts.get id after ≡ some row)
    ⊎ ((row.status ≡ "pending")
        × ((now : String) × ((v : Verdict) × (((v.status == "approved" || v.status == "rejected")
                  ≡ true)
                × (Dicts.get id after ≡ some (decided now v row))))))

abbrev is_request : Payload → Bool
is_request (pending_request group_id request_id details created_at) = true
is_request (pending_decision group_id request_id verdict) = true
is_request payload = false

requests-adopt_symkey :
    (reseal : String → Option String) (g : String) (envelope : Option String) (t : Tables)
    → (adopt_symkey reseal g envelope t).requests ≡ t.requests
unfolding adopt_symkey
requests-adopt_symkey reseal g none t = refl
requests-adopt_symkey reseal g (some envelope) t = ground arith

requests-leave_line :
    (now sender g kicked : String) (t : Tables)
    → (leave_line now sender g kicked t).requests ≡ t.requests
unfolding leave_line system_message
requests-leave_line now sender g kicked t = ground arith

requests-apply :
    (o : Outside) (now channel sender : String) (payload : Payload) (t : Tables)
    → is_request payload ≡ false
    → (apply o now channel sender payload t).0.requests ≡ t.requests
unfolding apply apply_roster_update put_member put_default_role join_line system_message
    apply_symkey_rotate drop_member apply_chat_mute set_muted apply_presence_beacon
    apply_roles_assign assign_roles apply_roles_def define_role delete_role apply_chat_message
    put_message apply_chat_delete delete_row apply_relay_update change_relay set_binding
    apply_group_meta set_avatar apply_relay_code put_code apply_usage_receipt tell
requests-apply o now channel sender (symkey_rotate g kicked envelope) t h =
    let adopted = adopt_symkey o.reseal g envelope t in
    ground (
      arith,
      requests-adopt_symkey o.reseal g envelope t,
      requests-leave_line now sender g kicked adopted,
    )
requests-apply o now channel sender (group_meta g none) t h = refl
requests-apply o now channel sender (group_meta g (some avatar)) t h = ground arith
requests-apply o now channel sender payload t h = ground arith

Fate-pending_request :
    (now channel g id : String) (details : JoinDetails) (at key : String)
    (row : GroupPendingJoinRequest) (t : Tables)
    → Dicts.get key t.requests ≡ some row
    → Dicts.get key (apply_pending_request now channel g id details at t).0.requests ≡ some row
unfolding apply_pending_request tell
Fate-pending_request now channel g id details at key row t h =
    elim (Bool-cases (not (g == channel) || id == "")) [
      | inl e ↦ rw e h
      | inr e ↦ rw e (elim (Option-cases (Dicts.get id t.requests)) [
        | inr found ↦ rw found.1 h
        | inl absent ↦ rw absent (
            Dicts.get-insert id key _ t.requests
            ∙ ground (arith, h, absent, Dicts.get_same id key t.requests))
      ])
    ]

Fate-decide_row :
    (now channel id : String) (v : Verdict) (found row : GroupPendingJoinRequest) (key : String)
    (t : Tables)
    → (v.status == "approved" || v.status == "rejected") ≡ true
    → Dicts.get id t.requests ≡ some found
    → Dicts.get key t.requests ≡ some row
    → Fate key row (decide_row now channel id v found t).0.requests
unfolding decide_row tell
Fate-decide_row now channel id v found row key t answered at_id h =
    elim (Bool-cases (found.status == "pending")) [
      | inr settled ↦ rw settled (inl h)
      | inl waits ↦ rw waits (elim (Bool-cases (id == key)) [
        | inr elsewhere ↦
            inl (Dicts.get-insert id key (decided now v found) t.requests ∙ rw elsewhere h)
        | inl here ↦
            let same =
              some_injective found row (sym at_id ∙ Dicts.get_same id key t.requests here ∙ h) in
            inr (
              ap (λ r. r.status) (sym same) ∙ eq_of_beq found.status "pending" waits,
              (
                now,
                (
                  v,
                  (
                    answered,
                    Dicts.get-insert id key (decided now v found) t.requests
                        ∙ rw here (ap (λ r. some (decided now v r)) same),
                  ),
                ),
              ),
            )
      ])
    ]

Fate-pending_decision :
    (now channel g id : String) (v : Verdict) (row : GroupPendingJoinRequest) (key : String)
    (t : Tables)
    → Dicts.get key t.requests ≡ some row
    → Fate key row (apply_pending_decision now channel g id v t).0.requests
unfolding apply_pending_decision
Fate-pending_decision now channel g id v row key t h =
    elim (Bool-cases (
      not (g == channel) || (id == "" || not (v.status == "approved" || v.status == "rejected")))) [
        | inl e ↦ rw e (inl h)
        | inr e ↦ rw e (elim (Option-cases (Dicts.get id t.requests)) [
          | inl absent ↦ rw absent (inl h)
          | inr found ↦
              rw found.1
                (Fate-decide_row now channel id v found.0 row key t (ground arith) found.1 h)
        ])
      ]

apply-Fate :
    (o : Outside) (now channel sender : String) (payload : Payload) (t : Tables) (key : String)
    (row : GroupPendingJoinRequest)
    → Dicts.get key t.requests ≡ some row
    → Fate key row (apply o now channel sender payload t).0.requests
unfolding apply
apply-Fate o now channel sender (pending_request g id details at) t key row h =
    inl (Fate-pending_request now channel g id details at key row t h)
apply-Fate o now channel sender (pending_decision g id v) t key row h =
    Fate-pending_decision now channel g id v row key t h
apply-Fate o now channel sender payload t key row h =
    inl (ap (Dicts.get key) (requests-apply o now channel sender payload t refl) ∙ h)

Fate-trans :
    (key : String) (row : GroupPendingJoinRequest) (s t : Requests)
    → ((r : GroupPendingJoinRequest) → Dicts.get key s ≡ some r → Fate key r t)
    → Fate key row s
    → Fate key row t
unfolding decided
Fate-trans key row s t two (inl kept) = two row kept
Fate-trans key row s t two (inr (waits, (now, (v, (answered, written))))) =
    elim (two (decided now v row) written) [
      | inl kept ↦ inr (waits, (now, (v, (answered, kept))))
      | inr again ↦ ground (arith, again.0, answered)
    ]

-- A request to join that is there stays there, as it was, or with one decision written into it,
-- which approves or rejects it, when it was still pending; so the first decision is final, and no
-- frame changes who asks or what group it asks to join.
pub dispatch_all-Fate :
    (o : Outside) (frames : List (String × GroupFrame)) (n : InboxNode) (key : String)
    (row : GroupPendingJoinRequest)
    → Dicts.get key n.tables.requests ≡ some row
    → Fate key row (dispatch_all o frames n).tables.requests
dispatch_all-Fate o frames n key row =
    dispatch_all-steps (λ sender. true) o (λ frame symkey admins f e. refl)
      (λ before after.
        (r : GroupPendingJoinRequest)
        → Dicts.get key before.requests ≡ some r
        → Fate key r after.requests)
      (λ t r h. inl h)
      (λ now f t member allowed r h. apply-Fate o now f.channel f.sender_pubkey f.payload t key r h)
      (λ r s t one two row h. Fate-trans key row s.requests t.requests two (one row h)) frames n row
