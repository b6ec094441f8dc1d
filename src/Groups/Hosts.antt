-- ===== src/Groups/Hosts.antt =====
-- What the host of a relay does with a frame, against what any node does.
use nexus_grid_grid.Prelude.Dicts
use nexus_grid_grid.Prelude.Dicts.{HasDistinctKeys}
use nexus_grid_grid.Prelude.{
  ◌≡◌, refl, sym, ap, ◌∙◌, ℕ, true, ◌⊎◌, inl, inr, List, Option, String, is_empty, text_key,
  pair_key, Bool-cases, Option-cases, arith,
}
use nexus_grid_grid.Groups.{has_permission, admin_pubkeys, perm_group_approve}
use nexus_grid_grid.Groups.Frames.{Payload, symkey_rotate, relay_update, OpenedFrame}
use nexus_grid_grid.Groups.Handlers.{GroupFrame, Outside, refusal}
use nexus_grid_grid.Groups.Inbox.{
  InboxNode, seen, dedupe_capacity, turned_away, rejected, run_handler, handle, after_opening,
  verified, accepted, is_group_paused, local_symkey, dispatch_inbound_frame,
}
use nexus_grid_grid.Groups.Fanout.{
  Target, not_relayed, in_audience, apply_as_audience, gate_channel, pass_on, relay_opened,
  relay_verified, relay_accepted, relay_inbound_frame,
}

-- Opening keeps the channel, as `open_frame` checks.
abbrev pub KeepsChannel : Outside → Type 0
KeepsChannel o =
    (frame : GroupFrame) (symkey : String) (admins : List String) (f : OpenedFrame)
    → o.open_frame frame symkey admins ≡ inr f
    → f.channel ≡ frame.channel

gate_channel-same :
    (channel opened : String) (payload : Payload)
    → opened ≡ channel
    → gate_channel channel opened payload ≡ opened
unfolding gate_channel
gate_channel-same channel opened (symkey_rotate g kicked envelope) e = refl
gate_channel-same channel opened (relay_update g c) e = refl
gate_channel-same channel opened payload e = sym e

module _ (poster : Target → GroupFrame → Option ℕ) (o : Outside) (keeps : KeepsChannel o) where
  node-pass_on :
      (now : String) (frame : GroupFrame) (f : OpenedFrame) (n : InboxNode)
      → in_audience o frame.channel f.payload n.tables ≡ true
      → (pass_on poster o now frame f n).node ≡ (run_handler o now frame f n).0
  unfolding pass_on apply_as_audience run_handler
  node-pass_on now frame f n audience = rw audience refl

  node-relay_opened :
      (now : String) (frame : GroupFrame) (n : InboxNode) (symkey : String) (admins : List String)
      (r : String ⊎ OpenedFrame)
      → o.open_frame frame symkey admins ≡ r
      → has_permission n.tables frame.channel o.me perm_group_approve ≡ true
      → (relay_opened poster o now frame n r).node ≡ (after_opening o now frame n r).0
  unfolding relay_opened after_opening in_audience not_relayed rejected handle turned_away
  node-relay_opened now frame n symkey admins (inl failure) e approves = refl
  node-relay_opened now frame n symkey admins (inr f) e approves =
      let channel = gate_channel frame.channel f.channel f.payload in
      let same =
        ap (λ c. refusal c f.sender_pubkey f.payload n.tables)
          (sym (
            gate_channel-same frame.channel f.channel f.payload (keeps frame symkey admins f e))) in
      elim (Option-cases (refusal channel f.sender_pubkey f.payload n.tables)) [
        | inr refused ↦ rw (relay_opened, handle, refused.1, same ∙ refused.1) refl
        | inl allowed ↦
            rw (relay_opened, handle, allowed, same ∙ allowed)
              (node-pass_on now frame f n (ground (arith, approves)))
      ]

  node-relay_verified :
      (now : String) (frame : GroupFrame) (symkey : String) (n : InboxNode)
      → has_permission n.tables frame.channel o.me perm_group_approve ≡ true
      → (relay_verified poster o now frame symkey n).node ≡ (verified o now frame symkey n).0
  unfolding relay_verified verified not_relayed rejected
  node-relay_verified now frame symkey n approves =
      let admins = admin_pubkeys frame.channel n.tables.assignments in
      elim (Bool-cases (is_empty admins)) [
        | inl e ↦ rw e refl
        | inr e ↦ rw e (
            node-relay_opened now frame n symkey admins (o.open_frame frame symkey admins) refl
              approves)
      ]

  node-relay_accepted :
      (now : String) (frame : GroupFrame) (n : InboxNode)
      → has_permission n.tables frame.channel o.me perm_group_approve ≡ true
      → (relay_accepted poster o now frame n).node ≡ (accepted o now frame n).0
  unfolding relay_accepted accepted not_relayed rejected turned_away
  node-relay_accepted now frame n approves =
      let g = Dicts.get frame.channel n.tables.groups in
      elim (Bool-cases (is_group_paused g)) [
        | inl e ↦ rw e refl
        | inr e ↦ rw e (elim (Option-cases (local_symkey o.open_symkey g)) [
          | inl no_key ↦ rw no_key refl
          | inr key ↦ rw key.1 (node-relay_verified now frame key.0 n approves)
        ])
      ]

  -- The host of a relay that may approve requests ends, for every frame, good or bad, in the state in
  -- which the frame leaves a node that is not a host: the same tables, ids and log.
  pub relay_inbound_frame-dispatch_inbound_frame :
      (now : String) (frame : GroupFrame) (n : InboxNode)
      → has_permission n.tables frame.channel o.me perm_group_approve ≡ true
      → (relay_inbound_frame poster o now frame n).node ≡ (dispatch_inbound_frame o now frame n).0
  unfolding relay_inbound_frame dispatch_inbound_frame not_relayed turned_away
  relay_inbound_frame-dispatch_inbound_frame now frame n approves =
      let looked_up = seen dedupe_capacity frame.frame_id n.seen_ids in
      elim (Bool-cases looked_up.1) [
        | inl e ↦ rw e refl
        | inr e ↦
            rw e (node-relay_accepted now frame (record n { seen_ids = looked_up.0 }) approves)
      ]
