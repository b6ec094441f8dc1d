-- ===== src/Groups/Steps.antt =====
-- Relations between the tables that hold of every handler behind its gate hold of the dispatch, and
-- of any number of frames.
use nexus_grid_grid.Prelude.Dicts
use nexus_grid_grid.Prelude.{
  ◌≡◌, refl, Bool, true, inl, inr, List, [], ◌∷◌, ◌⊎◌, none, String, is_empty, text_key, Bool-cases,
  Option-cases,
}
use nexus_grid_grid.Groups.{Tables, admin_pubkeys}
use nexus_grid_grid.Groups.Frames.{OpenedFrame}
use nexus_grid_grid.Groups.Handlers.{GroupFrame, Outside, refusal, apply}
use nexus_grid_grid.Groups.Inbox.{
  InboxNode, seen, dedupe_capacity, turned_away, rejected, run_handler, handle, after_opening,
  verified, accepted, is_group_paused, local_symkey, dispatch_inbound_frame,
}

-- The node after some envelopes, each with the time at which it comes.
unfoldable pub dispatch_all : Outside → List (String × GroupFrame) → InboxNode → InboxNode
unfolding dispatch_inbound_frame
dispatch_all o [] n = n
dispatch_all o ((now, frame) ∷ frames) n =
    dispatch_all o frames (dispatch_inbound_frame o now frame n).0

-- Frames open only to senders of a set.
abbrev pub OpensTo : (String → Bool) → Outside → Type 0
OpensTo group o =
    (frame : GroupFrame) (symkey : String) (admins : List String) (f : OpenedFrame)
    → o.open_frame frame symkey admins ≡ inr f
    → group f.sender_pubkey ≡ true

-- What every handler does, for the senders of a set, to the tables.
abbrev pub Handled : (String → Bool) → Outside → (Tables → Tables → Type 0) → Type 0
Handled group o R =
    (now : String) (f : OpenedFrame) (t : Tables)
    → group f.sender_pubkey ≡ true
    → refusal f.channel f.sender_pubkey f.payload t ≡ none
    → R t (apply o now f.channel f.sender_pubkey f.payload t).0

module _ (group : String → Bool) (o : Outside) (opens : OpensTo group o)
    (R : Tables → Tables → Type 0) (same : (t : Tables) → R t t) (handled : Handled group o R) where
  handle-R :
      (now : String) (frame : GroupFrame) (f : OpenedFrame) (n : InboxNode)
      → group f.sender_pubkey ≡ true
      → R n.tables (handle o now frame f n).0.tables
  unfolding handle run_handler turned_away
  handle-R now frame f n member =
      elim (Option-cases (refusal f.channel f.sender_pubkey f.payload n.tables)) [
        | inr refused ↦ rw (handle, refused.1) (same n.tables)
        | inl allowed ↦ rw (handle, allowed) (handled now f n.tables member allowed)
      ]

  opened-R :
      (now : String) (frame : GroupFrame) (symkey : String) (admins : List String) (n : InboxNode)
      (result : String ⊎ OpenedFrame)
      → o.open_frame frame symkey admins ≡ result
      → R n.tables (after_opening o now frame n result).0.tables
  unfolding after_opening rejected
  opened-R now frame symkey admins n (inl failure) e = same n.tables
  opened-R now frame symkey admins n (inr f) e =
      handle-R now frame f n (opens frame symkey admins f e)

  verified-R :
      (now : String) (frame : GroupFrame) (symkey : String) (n : InboxNode)
      → R n.tables (verified o now frame symkey n).0.tables
  unfolding verified rejected
  verified-R now frame symkey n =
      let admins = admin_pubkeys frame.channel n.tables.assignments in
      elim (Bool-cases (is_empty admins)) [
        | inl e ↦ rw e (same n.tables)
        | inr e ↦ rw e (opened-R now frame symkey admins n (o.open_frame frame symkey admins) refl)
      ]

  accepted-R :
      (now : String) (frame : GroupFrame) (n : InboxNode)
      → R n.tables (accepted o now frame n).0.tables
  unfolding accepted turned_away rejected
  accepted-R now frame n =
      let g = Dicts.get frame.channel n.tables.groups in
      elim (Bool-cases (is_group_paused g)) [
        | inl e ↦ rw e (same n.tables)
        | inr e ↦ rw e (elim (Option-cases (local_symkey o.open_symkey g)) [
          | inl no_key ↦ rw no_key (same n.tables)
          | inr key ↦ rw key.1 (verified-R now frame key.0 n)
        ])
      ]

  pub dispatch-step :
      (now : String) (frame : GroupFrame) (n : InboxNode)
      → R n.tables (dispatch_inbound_frame o now frame n).0.tables
  unfolding dispatch_inbound_frame turned_away
  dispatch-step now frame n =
      let looked_up = seen dedupe_capacity frame.frame_id n.seen_ids in
      elim (Bool-cases looked_up.1) [
        | inl e ↦ rw e (same n.tables)
        | inr e ↦ rw e (accepted-R now frame (record n { seen_ids = looked_up.0 }))
      ]

  pub dispatch_all-steps :
      ((r s t : Tables) → R r s → R s t → R r t)
      → (frames : List (String × GroupFrame)) (n : InboxNode)
      → R n.tables (dispatch_all o frames n).tables
  unfolding dispatch_all
  dispatch_all-steps trans [] n = same n.tables
  dispatch_all-steps trans ((now, frame) ∷ frames) n =
      let after = (dispatch_inbound_frame o now frame n).0 in
      trans n.tables after.tables (dispatch_all o frames after).tables (dispatch-step now frame n)
        (dispatch_all-steps trans frames after)
