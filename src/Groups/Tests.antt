-- ===== src/Groups/Tests.antt =====
-- The inbox on a group of two, where bob tries what he may not.
use nexus_grid_grid.Prelude.Dicts
use nexus_grid_grid.Prelude.{
  ℕ, Option, ◌≤◌, ◌≡◌, refl, sym, ap, true, false, ◌⊎◌, inl, inr, some, String, All, length,
  contains, ◌==◌, text_key, pair_key, Bool-cases, eq_of_beq, arith,
}
use nexus_grid_grid.Groups.{
  has_permission, effective_permissions, role_names, permissions_of, perm_role_assign,
  perm_group_approve, perm_relay_share_content, GroupMessage, admin_pubkeys, put_sorted, text_less,
  tell,
}
use nexus_grid_grid.Groups.Frames.{OpenedFrame}
use nexus_grid_grid.Groups.Roster.{rotate_sender_authorized}
use nexus_grid_grid.Groups.Relays.{relay_update_sender_authorized}
use nexus_grid_grid.Groups.Chat.{apply_chat_delete, delete_row, apply_chat_message, member_is_muted}
use nexus_grid_grid.Groups.Requests.{apply_pending_decision, decide_row}
use nexus_grid_grid.Groups.Handlers.{GroupFrame, Outside, refusal, governed, apply, type_of}
use nexus_grid_grid.Groups.Inbox.{
  dedupe_capacity, dispatch_inbound_frame, seen, accepted, is_group_paused, local_symkey, verified,
  after_opening, handle, run_handler, turned_away, rejected, capture_frame_to_log,
}
use nexus_grid_grid.Groups.Steps.{dispatch_all, OpensTo}
use nexus_grid_grid.Groups.Powers.{baseline}
use nexus_grid_grid.Groups.Outsiders.{Lacks, dispatch_all-permissions}
use nexus_grid_grid.Groups.Sharing.{may_read, dispatch_all-may_read}
use nexus_grid_grid.Groups.Replay.{IsDuplicate, dispatch-replayed, dispatch_all-bounded}
use nexus_grid_grid.Groups.Messages.{
  others, IsDeleted, dispatch_all-message, dispatch_all-IsDeleted,
}
use nexus_grid_grid.Groups.Fanout.{Target, relay_inbound_frame}
use nexus_grid_grid.Groups.Hosts.{KeepsChannel, relay_inbound_frame-dispatch_inbound_frame}
use nexus_grid_grid.Groups.Passed.{PassedOn, relay_inbound_frame-PassedOn}
use nexus_grid_grid.Groups.Fates.{Fate, dispatch_all-Fate}
use nexus_grid_grid.Groups.Builtin.{KeepsBuiltin, dispatch_all-KeepsBuiltin}
use nexus_grid_grid.Groups.Samples.{
  anns_message, deleted_message, waiting_request, sample_tables, sample_node, approving_node,
  bobs_outside, frame_saying, bobs_frames, is_bob,
}

abbrev sender_of : String ⊎ OpenedFrame → String
sender_of (inl failure) = ""
sender_of (inr f) = f.sender_pubkey

abbrev channel_of : String → String ⊎ OpenedFrame → String
channel_of channel (inl failure) = channel
channel_of channel (inr f) = f.channel

bobs_outside-opens : OpensTo is_bob bobs_outside
bobs_outside-opens frame symkey admins f e = ap (λ r. is_bob (sender_of r)) (sym e)

bobs_outside-others : OpensTo (others "ann") bobs_outside
bobs_outside-others frame symkey admins f e = ap (λ r. others "ann" (sender_of r)) (sym e)

no_assign : (g : String) → contains (baseline g sample_tables) perm_role_assign ≡ false
unfolding permissions_of
no_assign g = elim (Bool-cases ("g" == g)) [ inl e ↦ rw e refl | inr e ↦ rw e refl ]

no_share : (g : String) → contains (baseline g sample_tables) perm_relay_share_content ≡ false
unfolding permissions_of
no_share g = elim (Bool-cases ("g" == g)) [ inl e ↦ rw e refl | inr e ↦ rw e refl ]

bob-Lacks : Lacks perm_role_assign is_bob sample_tables
unfolding has_permission effective_permissions role_names permissions_of
bob-Lacks g p is =
    rw (eq_of_beq p "bob" is)
      (elim (Bool-cases ("g" == g)) [ inl e ↦ rw e refl | inr e ↦ rw e refl ])

bob-Lacks_share : Lacks perm_relay_share_content is_bob sample_tables
unfolding has_permission effective_permissions role_names permissions_of
bob-Lacks_share g p is =
    rw (eq_of_beq p "bob" is)
      (elim (Bool-cases ("g" == g)) [ inl e ↦ rw e refl | inr e ↦ rw e refl ])

ann_governs :
    has_permission
      (dispatch_all bobs_outside bobs_frames sample_node).tables
      "g"
      "ann"
      perm_role_assign
    ≡ true
unfolding dispatch_all dispatch_inbound_frame seen accepted is_group_paused local_symkey verified
    admin_pubkeys put_sorted text_less after_opening handle refusal governed
    rotate_sender_authorized relay_update_sender_authorized run_handler turned_away rejected apply
    capture_frame_to_log apply_chat_delete delete_row apply_pending_decision decide_row
    apply_chat_message member_is_muted has_permission effective_permissions role_names
    permissions_of tell type_of Dicts.get Dicts.insert
ann_governs = refl

relay_reads :
    may_read ("g", "https://open") (dispatch_all bobs_outside bobs_frames sample_node).tables ≡ true
unfolding dispatch_all dispatch_inbound_frame seen accepted is_group_paused local_symkey verified
    admin_pubkeys put_sorted text_less after_opening handle refusal governed
    rotate_sender_authorized relay_update_sender_authorized run_handler turned_away rejected apply
    capture_frame_to_log apply_chat_delete delete_row apply_pending_decision decide_row
    apply_chat_message member_is_muted has_permission effective_permissions role_names
    permissions_of tell type_of Dicts.get Dicts.insert
relay_reads = refl

-- The relay that ann opened, and not the other, reads at the end.
dispatch_all-may_read_example : may_read ("g", "https://open") sample_tables ≡ true
dispatch_all-may_read_example =
    dispatch_all-may_read is_bob bobs_outside bobs_outside-opens bobs_frames sample_node no_assign
      no_share bob-Lacks bob-Lacks_share ("g", "https://open") relay_reads

-- What bob sends leaves who governs as it was.
dispatch_all-permissions_example :
    (has_permission sample_tables "g" "ann" perm_role_assign ≡ true)
    ⊎ (contains (baseline "g" sample_tables) perm_role_assign ≡ true)
dispatch_all-permissions_example =
    dispatch_all-permissions is_bob bobs_outside bobs_outside-opens bobs_frames sample_node
      no_assign bob-Lacks "g" "ann" perm_role_assign ann_governs

dispatch_all-message_example :
    Dicts.get ("g", "m1") (dispatch_all bobs_outside bobs_frames sample_node).tables.messages
    ≡ some anns_message
unfolding Dicts.get
dispatch_all-message_example =
    dispatch_all-message bobs_outside "ann" bobs_outside-others bobs_frames sample_node ("g", "m1")
      anns_message refl refl

dispatch_all-IsDeleted_example :
    (last : GroupMessage) × ((Dicts.get
          ("g", "m0")
          (dispatch_all bobs_outside bobs_frames sample_node).tables.messages
        ≡ some last)
      × IsDeleted last)
unfolding Dicts.get
dispatch_all-IsDeleted_example =
    dispatch_all-IsDeleted bobs_outside bobs_frames sample_node ("g", "m0") deleted_message refl
      (refl, refl)

dispatch_all-Fate_example :
    Fate "r1" waiting_request (dispatch_all bobs_outside bobs_frames sample_node).tables.requests
unfolding Dicts.get
dispatch_all-Fate_example =
    dispatch_all-Fate bobs_outside bobs_frames sample_node "r1" waiting_request refl

dispatch_all-KeepsBuiltin_example :
    KeepsBuiltin "g" sample_tables (dispatch_all bobs_outside bobs_frames sample_node).tables
dispatch_all-KeepsBuiltin_example =
    dispatch_all-KeepsBuiltin "g" bobs_outside bobs_frames sample_node

dispatch_all-bounded_example :
    length (dispatch_all bobs_outside bobs_frames sample_node).seen_ids ≤ dedupe_capacity
dispatch_all-bounded_example =
    dispatch_all-bounded bobs_outside bobs_frames sample_node (omega arith)

-- The second of two frames with one id, six frames later.
dispatch-replayed_example : IsDuplicate bobs_outside "t3" (frame_saying "f0" "text") (
    dispatch_all bobs_outside bobs_frames
      (dispatch_inbound_frame bobs_outside "t2" (frame_saying "f0" "delete") sample_node).0)
dispatch-replayed_example =
    dispatch-replayed bobs_outside "t2" "t3" (frame_saying "f0" "delete") (frame_saying "f0" "text")
      bobs_frames sample_node refl refl (omega arith)

bobs_outside-KeepsChannel : KeepsChannel bobs_outside
bobs_outside-KeepsChannel frame symkey admins f e = ap (λ r. channel_of frame.channel r) (sym e)

-- Everyone takes a frame.
abbrev takes_all : Target → GroupFrame → Option ℕ
takes_all target frame = some 200

-- The node of ann, who approves.
abbrev anns_outside : Outside
anns_outside = record bobs_outside { me = "ann" }

ann_approves : has_permission approving_node.tables "g" "ann" perm_group_approve ≡ true
unfolding has_permission effective_permissions role_names permissions_of
ann_approves = refl

relay_inbound_frame-dispatch_inbound_frame_example :
    (relay_inbound_frame takes_all anns_outside "t2"
      (frame_saying "f4" "approve")
      approving_node).node
    ≡ (dispatch_inbound_frame anns_outside "t2" (frame_saying "f4" "approve") approving_node).0
relay_inbound_frame-dispatch_inbound_frame_example =
    relay_inbound_frame-dispatch_inbound_frame takes_all anns_outside bobs_outside-KeepsChannel "t2"
      (frame_saying "f4" "approve") approving_node ann_approves

relay_inbound_frame-PassedOn_example :
    All
      (PassedOn bobs_outside (frame_saying "f6" "text") approving_node.tables)
      (relay_inbound_frame takes_all bobs_outside "t2"
        (frame_saying "f6" "text")
        approving_node).posted
unfolding Dicts.get
relay_inbound_frame-PassedOn_example =
    relay_inbound_frame-PassedOn takes_all bobs_outside "t2" (frame_saying "f6" "text")
      approving_node (refl, (refl, tt))
