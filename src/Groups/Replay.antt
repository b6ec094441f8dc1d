-- ===== src/Groups/Replay.antt =====
-- What the dispatch does with the ids of frames.
use nexus_grid_grid.Prelude.Dicts
use nexus_grid_grid.Prelude.{
  discard, ◌++◌, ℕ, suc, ◌+◌, ◌≤◌, ◌<◌, ◌≡◌, refl, ap, ◌∙◌, true, false, inl, inr, List, [], ◌∷◌,
  ◌⊎◌, String, length, contains, ◌==◌, text_key, Option-cases, arith,
}
use nexus_grid_grid.Groups.{admin_pubkeys}
use nexus_grid_grid.Groups.Frames.{OpenedFrame}
use nexus_grid_grid.Groups.Handlers.{GroupFrame, Outside}
use nexus_grid_grid.Groups.Inbox.{
  InboxNode, seen, dedupe_capacity, turned_away, rejected, run_handler, handle, after_opening,
  verified, accepted, local_symkey, dispatch_inbound_frame,
}
use nexus_grid_grid.Groups.Steps.{dispatch_all}
use nexus_grid_grid.Groups.Dedupe.{Recent, seen-newest, seen-Recent, Recent-contains, seen-bounded}

seen_ids-after_opening :
    (o : Outside) (now : String) (frame : GroupFrame) (n : InboxNode) (r : String ⊎ OpenedFrame)
    → (after_opening o now frame n r).0.seen_ids ≡ n.seen_ids
unfolding after_opening rejected handle run_handler turned_away
seen_ids-after_opening o now frame n (inl failure) = refl
seen_ids-after_opening o now frame n (inr f) = ground arith

seen_ids-verified :
    (o : Outside) (now : String) (frame : GroupFrame) (symkey : String) (n : InboxNode)
    → (verified o now frame symkey n).0.seen_ids ≡ n.seen_ids
unfolding verified rejected
seen_ids-verified o now frame symkey n =
    let admins = admin_pubkeys frame.channel n.tables.assignments in
    ground (arith, seen_ids-after_opening o now frame n (o.open_frame frame symkey admins))

seen_ids-accepted :
    (o : Outside) (now : String) (frame : GroupFrame) (n : InboxNode)
    → (accepted o now frame n).0.seen_ids ≡ n.seen_ids
unfolding accepted rejected turned_away
seen_ids-accepted o now frame n =
    let g = Dicts.get frame.channel n.tables.groups in
    elim (Option-cases (local_symkey o.open_symkey g)) [
      | inl no_key ↦ ground (arith, no_key)
      | inr key ↦ ground (arith, key.1, seen_ids-verified o now frame key.0 n)
    ]

seen_ids-dispatch :
    (o : Outside) (now : String) (frame : GroupFrame) (n : InboxNode)
    → (dispatch_inbound_frame o now frame n).0.seen_ids
      ≡ (seen dedupe_capacity frame.frame_id n.seen_ids).0
unfolding dispatch_inbound_frame turned_away
seen_ids-dispatch o now frame n =
    let looked_up = seen dedupe_capacity frame.frame_id n.seen_ids in
    ground (arith, seen_ids-accepted o now frame (record n { seen_ids = looked_up.0 }))

-- However many frames come, a cache that holds no more ids than its capacity goes on so.
pub dispatch_all-bounded :
    (o : Outside) (frames : List (String × GroupFrame)) (n : InboxNode)
    → length n.seen_ids ≤ dedupe_capacity
    → length (dispatch_all o frames n).seen_ids ≤ dedupe_capacity
unfolding dispatch_all
dispatch_all-bounded o [] n h = h
dispatch_all-bounded o ((now, frame) ∷ frames) n h =
    dispatch_all-bounded o frames (dispatch_inbound_frame o now frame n).0 (
      rw (seen_ids-dispatch o now frame n)
        (seen-bounded dedupe_capacity frame.frame_id n.seen_ids h))

contains-dispatch_all :
    (o : Outside) (frames : List (String × GroupFrame)) (n : InboxNode) (k : ℕ) (id : String)
    → k + length frames < dedupe_capacity
    → Recent k id n.seen_ids
    → contains (dispatch_all o frames n).seen_ids id ≡ true
unfolding dispatch_all
contains-dispatch_all o [] n k id room h = Recent-contains k id n.seen_ids h
contains-dispatch_all o ((now, frame) ∷ frames) n k id room h =
    contains-dispatch_all o frames (dispatch_inbound_frame o now frame n).0 (suc k) id
      (omega (arith, room))
      (rw (seen_ids-dispatch o now frame n)
        (seen-Recent dedupe_capacity k id frame.frame_id n.seen_ids (omega (arith, room)) h))

-- A frame is answered as a duplicate, changes neither the tables nor the log, and moves its id to the
-- newest end of the cache.
pub record IsDuplicate (o : Outside) (now : String) (frame : GroupFrame) (n : InboxNode)
    : Type 0 where
  pub tables_kept : (dispatch_inbound_frame o now frame n).0.tables ≡ n.tables
  pub log_kept : (dispatch_inbound_frame o now frame n).0.frame_log ≡ n.frame_log
  pub answer :
      (dispatch_inbound_frame o now frame n).1
      ≡ record { ok = true; applied = false; reason = "duplicate" }
  pub id_renewed :
      (dispatch_inbound_frame o now frame n).0.seen_ids
      ≡ discard frame.frame_id n.seen_ids ++ frame.frame_id ∷ []

dispatch-known :
    (o : Outside) (now : String) (frame : GroupFrame) (n : InboxNode)
    → (frame.frame_id == "") ≡ false
    → contains n.seen_ids frame.frame_id ≡ true
    → IsDuplicate o now frame n
unfolding dispatch_inbound_frame seen turned_away
dispatch-known o now frame n named known = record {
  tables_kept = rw (named, known) refl;
  log_kept = rw (named, known) refl;
  answer = rw (named, known) refl;
  id_renewed = rw (named, known) refl;
}

-- A frame whose id, not blank, another frame had, when fewer than 4096 frames came in between, is
-- answered as a duplicate: it changes neither the tables nor the log and only moves its id to the
-- newest end of the cache, whatever its contents, and whatever became of the first, which may have
-- been rejected as forged.
pub dispatch-replayed :
    (o : Outside) (now later : String) (first again : GroupFrame)
    (between : List (String × GroupFrame)) (n : InboxNode)
    → again.frame_id ≡ first.frame_id
    → (first.frame_id == "") ≡ false
    → length between < dedupe_capacity
    → IsDuplicate o later again (dispatch_all o between (dispatch_inbound_frame o now first n).0)
dispatch-replayed o now later first again between n same named few =
    let m = dispatch_all o between (dispatch_inbound_frame o now first n).0 in
    dispatch-known o later again m (ap (λ i. i == "") same ∙ named) (
      ap (contains m.seen_ids) same
      ∙ contains-dispatch_all o between (dispatch_inbound_frame o now first n).0 0 first.frame_id
          (omega (arith, few))
          (rw (seen_ids-dispatch o now first n)
            (seen-newest dedupe_capacity first.frame_id n.seen_ids named (omega arith))))
