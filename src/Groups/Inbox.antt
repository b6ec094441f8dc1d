-- ===== src/Groups/Inbox.antt =====
-- `dispatch_inbound_frame` of runtime/group_inbox.py, with the cache of frame ids of
-- security/group_frame.py (FrameDedupeCache).
use nexus_grid_grid.Prelude.Dicts
use nexus_grid_grid.Prelude.Text.{append_text}
use nexus_grid_grid.Prelude.{
  ℕ, Bool, true, false, ◌||◌, List, [], ◌∷◌, ◌++◌, Option, none, some, ◌⊎◌, inl, inr, String, Dict,
  length, drop, contains, discard, is_empty, ltb, if◌then◌else◌, ◌==◌, text_key, pair_key,
}
use nexus_grid_grid.Groups.{Group, Tables, admin_pubkeys}
use nexus_grid_grid.Groups.Frames.{OpenedFrame}
use nexus_grid_grid.Groups.Handlers.{GroupFrame, Outside, type_of, refusal, apply}

pub record GroupFrameLog : Type 0 where
  pub envelope : GroupFrame
  pub frame_type : String
  pub captured_at : String

pub record InboxNode : Type 0 where
  pub tables : Tables
  pub seen_ids : List String
  pub frame_log : Dict (String × String) GroupFrameLog

pub record Reply : Type 0 where
  pub ok : Bool
  pub applied : Bool
  pub reason : String

abbrev pub dedupe_capacity : ℕ
dedupe_capacity = 4096

-- FrameDedupeCache.seen, the oldest id first: whether the id was there, and the ids after.
unfoldable pub seen : ℕ → String → List String → List String × Bool
seen capacity frame_id ids =
    if frame_id == ""
    then (ids, false)
    else if contains ids frame_id
    then (discard frame_id ids ++ frame_id ∷ [], true)
    else if ltb capacity (length (ids ++ frame_id ∷ []))
    then (drop 1 (ids ++ frame_id ∷ []), false)
    else (ids ++ frame_id ∷ [], false)

-- capture_frame_to_log: one copy of an envelope, none of a presence beacon.
unfoldable pub capture_frame_to_log :
    String
    → GroupFrame
    → String
    → Dict (String × String) GroupFrameLog
    → Dict (String × String) GroupFrameLog
capture_frame_to_log now frame frame_type log =
    if frame.channel == "" || (frame.frame_id == "" || frame_type == "presence.beacon")
    then log
    else elim (Dicts.get (frame.channel, frame.frame_id) log) [
      | some row ↦ log
      | none ↦
          Dicts.insert (frame.channel, frame.frame_id)
            (record { envelope = frame; frame_type = frame_type; captured_at = now }) log
    ]

unfoldable pub turned_away : String → InboxNode → InboxNode × Reply
turned_away reason n = (n, record { ok = true; applied = false; reason = reason })

unfoldable pub rejected : String → InboxNode → InboxNode × Reply
rejected reason n = (n, record { ok = false; applied = false; reason = reason })

unfoldable pub run_handler :
    Outside → String → GroupFrame → OpenedFrame → InboxNode → InboxNode × Reply
unfolding apply capture_frame_to_log type_of
run_handler o now frame f n =
    let after = apply o now f.channel f.sender_pubkey f.payload n.tables in
    (
      record n {
        tables = after.0;
        frame_log = capture_frame_to_log now frame (type_of f.payload) n.frame_log;
      },
      record { ok = true; applied = after.1; reason = "" },
    )

-- Step 5, for a frame that is verified.
unfoldable pub handle : Outside → String → GroupFrame → OpenedFrame → InboxNode → InboxNode × Reply
unfolding refusal run_handler turned_away
handle o now frame f n = elim (refusal f.channel f.sender_pubkey f.payload n.tables) [
  | some reason ↦ turned_away reason n
  | none ↦ run_handler o now frame f n
]

unfoldable pub after_opening :
    Outside → String → GroupFrame → InboxNode → String ⊎ OpenedFrame → InboxNode × Reply
unfolding rejected handle
after_opening o now frame n (inl failure) = rejected (append_text "verify: " failure) n
after_opening o now frame n (inr f) = handle o now frame f n

-- Step 4, with the key and the admins of the channel.
unfoldable pub verified : Outside → String → GroupFrame → String → InboxNode → InboxNode × Reply
unfolding admin_pubkeys rejected after_opening
verified o now frame symkey n =
    let admins = admin_pubkeys frame.channel n.tables.assignments in
    if is_empty admins
    then rejected "no admin pubkeys" n
    else after_opening o now frame n (o.open_frame frame symkey admins)

-- `_local_symkey`
unfoldable pub local_symkey : (String → Option String) → Option Group → Option String
local_symkey open_symkey none = none
local_symkey open_symkey (some g) = elim g.group_symkey [
  | none ↦ none
  | some envelope ↦ open_symkey envelope
]

unfoldable pub is_group_paused : Option Group → Bool
is_group_paused none = false
is_group_paused (some g) = g.paused

-- Step 3.
unfoldable pub accepted : Outside → String → GroupFrame → InboxNode → InboxNode × Reply
unfolding is_group_paused local_symkey turned_away rejected verified
accepted o now frame n =
    let g = Dicts.get frame.channel n.tables.groups in
    if is_group_paused g
    then turned_away "group paused locally" n
    else elim (local_symkey o.open_symkey g) [
      | none ↦ rejected "no symkey for channel" n
      | some symkey ↦ verified o now frame symkey n
    ]

-- The envelope has the shape of a frame.
unfoldable pub dispatch_inbound_frame :
    Outside → String → GroupFrame → InboxNode → InboxNode × Reply
unfolding seen turned_away accepted
dispatch_inbound_frame o now frame n =
    let looked_up = seen dedupe_capacity frame.frame_id n.seen_ids in
    let marked = record n { seen_ids = looked_up.0 } in
    if looked_up.1 then turned_away "duplicate" marked else accepted o now frame marked
