-- ===== src/Groups/Sharing.antt =====
-- Which relays may read the content of a group.
use nexus_grid_grid.Prelude.Dicts
use nexus_grid_grid.Prelude.Text.{strip}
use nexus_grid_grid.Prelude.{
  ◌≡◌, refl, sym, ap, ◌∙◌, Bool, true, false, not, ◌||◌, inl, inr, List, [], ◌∷◌, Option, none,
  some, String, Dict, ◌==◌, text_key, pair_key, Bool-cases, Option-cases, contains, arith,
}
use nexus_grid_grid.Groups.{
  GroupRelayBinding, Tables, tell, has_permission, perm_role_assign, perm_relay_share_content,
}
use nexus_grid_grid.Groups.Frames.{RelayChange, Payload, symkey_rotate, relay_update, group_meta}
use nexus_grid_grid.Groups.Roster.{
  apply_roster_update, put_member, put_default_role, join_line, apply_symkey_rotate, leave_line,
  drop_member, adopt_symkey, system_message, apply_chat_mute, set_muted, apply_presence_beacon,
}
use nexus_grid_grid.Groups.Roles.{
  apply_roles_assign, assign_roles, apply_roles_def, define_role, delete_role,
}
use nexus_grid_grid.Groups.Chat.{apply_chat_message, put_message, apply_chat_delete, delete_row}
use nexus_grid_grid.Groups.Requests.{apply_pending_request, apply_pending_decision, decide_row}
use nexus_grid_grid.Groups.Relays.{
  apply_relay_update, is_relay_action, change_relay, set_binding, changed_binding, configured,
  added_binding, relay_update_sender_authorized, apply_group_meta, set_avatar, apply_relay_code,
  put_code,
}
use nexus_grid_grid.Groups.Handlers.{
  GroupFrame, Outside, refusal, governed, apply, apply_usage_receipt,
}
use nexus_grid_grid.Groups.Inbox.{InboxNode, dispatch_inbound_frame}
use nexus_grid_grid.Groups.Powers.{baseline}
use nexus_grid_grid.Groups.Steps.{dispatch_all, OpensTo, dispatch-step}
use nexus_grid_grid.Groups.Outsiders.{Lacks, Lacks-kept, plain_kept, dispatch-GivesBaseline}

abbrev pub Bindings : Type 0
Bindings = Dict (String × String) GroupRelayBinding

abbrev pub shared_row : Option GroupRelayBinding → Bool
shared_row none = false
shared_row (some row) = row.content_share

-- The group lets the relay read its content.
abbrev pub may_read : String × String → Tables → Bool
may_read key t = shared_row (Dicts.get key t.bindings)

bindings-adopt_symkey :
    (reseal : String → Option String) (g : String) (envelope : Option String) (t : Tables)
    → (adopt_symkey reseal g envelope t).bindings ≡ t.bindings
unfolding adopt_symkey
bindings-adopt_symkey reseal g none t = refl
bindings-adopt_symkey reseal g (some envelope) t = ground arith

bindings-leave_line :
    (now sender g kicked : String) (t : Tables)
    → (leave_line now sender g kicked t).bindings ≡ t.bindings
unfolding leave_line system_message
bindings-leave_line now sender g kicked t = ground arith

abbrev is_relay : Payload → Bool
is_relay (relay_update group_id change) = true
is_relay payload = false

bindings-apply :
    (o : Outside) (now channel sender : String) (payload : Payload) (t : Tables)
    → is_relay payload ≡ false
    → (apply o now channel sender payload t).0.bindings ≡ t.bindings
unfolding apply apply_pending_request apply_pending_decision decide_row apply_roster_update
    put_member put_default_role join_line system_message apply_symkey_rotate drop_member
    apply_chat_mute set_muted apply_presence_beacon apply_roles_assign assign_roles apply_roles_def
    define_role delete_role apply_chat_message put_message apply_chat_delete delete_row
    apply_group_meta set_avatar apply_relay_code put_code apply_usage_receipt tell
bindings-apply o now channel sender (symkey_rotate g kicked envelope) t h =
    let adopted = adopt_symkey o.reseal g envelope t in
    ground (
      arith,
      bindings-adopt_symkey o.reseal g envelope t,
      bindings-leave_line now sender g kicked adopted,
    )
bindings-apply o now channel sender (group_meta g none) t h = refl
bindings-apply o now channel sender (group_meta g (some avatar)) t h = ground arith
bindings-apply o now channel sender payload t h = ground arith

-- An action other than `content_share` opens no relay.
may_read-set :
    (key : String × String) (g url : String) (row : GroupRelayBinding) (t : Tables)
    → (row.content_share ≡ true → may_read (g, url) t ≡ true)
    → may_read key (set_binding g url row t).0 ≡ true
    → may_read key t ≡ true
unfolding set_binding tell
may_read-set key g url row t from h = elim (Bool-cases ((g, url) == key)) [
  | inl here ↦
      ap shared_row (sym (Dicts.get_same (g, url) key t.bindings here))
      ∙ from (ground (arith, Dicts.get-insert (g, url) key row t.bindings, here, h))
  | inr elsewhere ↦ ground (arith, Dicts.get-insert (g, url) key row t.bindings, elsewhere, h)
]

changed_open :
    (now sender : String) (c : RelayChange) (row : GroupRelayBinding)
    → (c.action == "content_share") ≡ false
    → (changed_binding now sender c row).content_share ≡ true
    → row.content_share ≡ true
unfolding changed_binding configured
changed_open now sender c row other h = ground (arith, other, h)

may_read-change :
    (now sender g url : String) (c : RelayChange) (key : String × String) (t : Tables)
    → (c.action == "content_share") ≡ false
    → may_read key (change_relay now sender g url c t).0 ≡ true
    → may_read key t ≡ true
unfolding change_relay added_binding
may_read-change now sender g url c key t other =
    elim (Option-cases (Dicts.get (g, url) t.bindings)) [
      | inr found ↦
          rw (change_relay, found.1)
            (may_read-set key g url (changed_binding now sender c found.0) t
              (λ opened. ap shared_row found.1 ∙ changed_open now sender c found.0 other opened))
      | inl absent ↦ elim (Bool-cases (c.action == "add")) [
        | inl add ↦
            rw (change_relay, absent, add)
              (may_read-set key g url _ t (λ opened. ground (arith, opened)))
        | inr other_action ↦ rw (change_relay, absent, other_action) (λ h. h)
      ]
    ]

may_read-relay_update :
    (now channel sender g : String) (c : RelayChange) (key : String × String) (t : Tables)
    → (c.action == "content_share") ≡ false
    → may_read key (apply_relay_update now channel sender g c t).0 ≡ true
    → may_read key t ≡ true
unfolding apply_relay_update
may_read-relay_update now channel sender g c key t other =
    let url = strip c.relay_url in
    elim (Bool-cases (not (g == channel) || (not (is_relay_action c.action) || url == ""))) [
      | inl e ↦ rw e (λ h. h)
      | inr e ↦ rw e (may_read-change now sender g url c key t other)
    ]

-- An allowed frame of a sender without the permission opens no relay.
may_read-apply :
    (o : Outside) (now channel sender : String) (payload : Payload) (key : String × String)
    (t : Tables)
    → has_permission t channel sender perm_relay_share_content ≡ false
    → refusal channel sender payload t ≡ none
    → may_read key (apply o now channel sender payload t).0 ≡ true
    → may_read key t ≡ true
unfolding apply refusal governed relay_update_sender_authorized
may_read-apply o now channel sender (relay_update g c) key t lacks allowed h =
    elim (Bool-cases (c.action == "content_share")) [
      | inr other ↦ may_read-relay_update now channel sender g c key t other h
      | inl share ↦ ground (arith, share, lacks, allowed)
    ]
may_read-apply o now channel sender payload key t lacks allowed h =
    ap (λ rows. shared_row (Dicts.get key rows))
      (sym (bindings-apply o now channel sender payload t refl))
    ∙ h

module _ (group : String → Bool) (o : Outside) (opens : OpensTo group o) where
  may_read-dispatch :
      (now : String) (frame : GroupFrame) (key : String × String) (n : InboxNode)
      → Lacks perm_relay_share_content group n.tables
      → may_read key (dispatch_inbound_frame o now frame n).0.tables ≡ true
      → may_read key n.tables ≡ true
  may_read-dispatch now frame key =
      dispatch-step group o opens
        (λ before after.
          Lacks perm_relay_share_content group before
          → may_read key after ≡ true
          → may_read key before ≡ true)
        (λ t lack h. h)
        (λ time f t member allowed lack.
          may_read-apply o time f.channel f.sender_pubkey f.payload key t
            (lack f.channel f.sender_pubkey member) allowed)
        now frame

  -- Frames whose senders all lack `role:assign` and `relay:share_content` when they start to arrive,
  -- in a node in whose groups the role `member` holds neither, let no relay read the content of a
  -- group: a relay that may read it at the end could at the start.
  pub dispatch_all-may_read :
      (frames : List (String × GroupFrame)) (n : InboxNode)
      → ((g : String) → contains (baseline g n.tables) perm_role_assign ≡ false)
      → ((g : String) → contains (baseline g n.tables) perm_relay_share_content ≡ false)
      → Lacks perm_role_assign group n.tables
      → Lacks perm_relay_share_content group n.tables
      → (key : String × String) → may_read key (dispatch_all o frames n).tables ≡ true
      → may_read key n.tables ≡ true
  unfolding dispatch_all
  dispatch_all-may_read [] n plain private lack lack_share key h = h
  dispatch_all-may_read ((now, frame) ∷ frames) n plain private lack lack_share key h =
      let after = (dispatch_inbound_frame o now frame n).0 in
      let step = dispatch-GivesBaseline group o opens now frame n lack in
      may_read-dispatch now frame key n lack_share (
        dispatch_all-may_read frames after
          (plain_kept perm_role_assign n.tables after.tables step plain)
          (plain_kept perm_relay_share_content n.tables after.tables step private)
          (Lacks-kept perm_role_assign group n.tables after.tables step plain lack)
          (Lacks-kept perm_relay_share_content group n.tables after.tables step private lack_share)
          key h)
