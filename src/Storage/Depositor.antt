-- ===== src/Storage/Depositor.antt =====
-- The depositor's passes: queued offers, offers to several peers, and paused transfers.
use mathlib.Core.Option
use nexus_grid_grid.Prelude.Dicts
use nexus_grid_grid.Prelude.{
  ℕ, zero, suc, ◌+◌, Bool, true, false, ◌&&◌, ◌||◌, List, [], ◌∷◌, Option, none, some, String,
  if◌then◌else◌, ltb, leb, ◌==◌, nat_eq, text_key,
}
use nexus_grid_grid.Tasks.Env.{or_default, seconds}
use nexus_grid_grid.Presence.{is_peer_offline}
use nexus_grid_grid.Storage.Keys.{take_key, drop_key}
use nexus_grid_grid.Storage.Deposit.{
  depositor, offered, withdrawn, queued_offline, offering_multi, failed_in_transit,
  paused_send_failed, paused_silent, paused_host_shutdown, paused_host_down, role_key, status_key,
  parse_iso, stamp_or, hours, Deposit, Depot, World, delivered, storage_offer, offer_cancelled,
  delete_now, resume_request, auto_offer_failed, transit_failed, audit, post, announce,
}

-- Drops the key of a deposit that is given up.
unfoldable pub forget_key : Deposit → Depot → Depot
unfolding drop_key
forget_key row depot = record depot { keys = drop_key row.deposit_id depot.keys }

-- Takes the staged upload off the table and removes its directory.
unfoldable pub remove_staged : Deposit → Depot → Depot
remove_staged row depot = elim (Dicts.get row.deposit_id depot.upload_temp_dirs) [
  | none ↦ depot
  | some dir ↦ record depot {
    upload_temp_dirs = Dicts.erase row.deposit_id depot.upload_temp_dirs;
    removed_dirs = if dir == "" then depot.removed_dirs else dir ∷ depot.removed_dirs;
  }
]

abbrev pub withdraw : Deposit → Deposit
withdraw row = record row { status = withdrawn }

abbrev pub is_none {ℓ} : {A : Type ℓ} → Option A → Bool
is_none none = true
is_none (some a) = false

unfoldable pub queue_retry_one : World → Deposit → Depot → Deposit × Depot
unfolding forget_key remove_staged audit post parse_iso take_key
queue_retry_one w row depot =
    let (key, keys) = take_key w.now row.deposit_id depot.keys in
    let read = record depot { keys = keys } in
    let frame = storage_offer row in
    let told = post row.host_uuid frame read in
    if ltb (parse_iso w.now row.created_at + hours 24) w.now || is_none key
    then (
      withdraw row,
      audit "storage.deposit_retry_expired" row.deposit_id
          (remove_staged row (forget_key row read)),
    )
    else if is_peer_offline w.presence row.host_uuid
    then (row, read)
    else elim (w.send row.host_uuid frame) [
      | delivered ↦ (
        record row { status = offered },
        audit "storage.deposit_retry_succeeded" row.deposit_id told,
      )
      | _ ↦ (row, told)
    ]

unfoldable pub is_queued_offline : Deposit → Bool
is_queued_offline row = (row.role == depositor) && (row.status == queued_offline)

unfoldable pub cancel_each : Deposit → List String → Depot → Depot
unfolding post
cancel_each row [] depot = depot
cancel_each row (c ∷ cs) depot = cancel_each row cs (post c (offer_cancelled row.deposit_id) depot)

unfoldable pub lose_offer : Deposit → Depot → Depot
unfolding forget_key audit announce
lose_offer row depot =
    let dropped = forget_key row depot in
    announce (auto_offer_failed row.deposit_id "lost_state") (
      audit "storage.auto_offer_lost_state" row.deposit_id
        (record dropped { auto_candidates = Dicts.erase row.deposit_id dropped.auto_candidates }))

unfoldable pub time_out_offer : Deposit → Depot → Depot
unfolding forget_key remove_staged cancel_each audit announce
time_out_offer row depot =
    let candidates = Option.get_or (Dicts.get row.deposit_id depot.auto_candidates) [] in
    let popped = record depot {
      auto_candidates = Dicts.erase row.deposit_id depot.auto_candidates;
      auto_started_at = Dicts.erase row.deposit_id depot.auto_started_at;
    } in
    announce (auto_offer_failed row.deposit_id "timeout") (
      audit "storage.auto_offer_timeout" row.deposit_id
        (remove_staged row (forget_key row (cancel_each row candidates popped))))

-- The row's own timeout, or else the node's.
unfoldable pub offer_timeout : World → Deposit → ℕ
unfolding or_default
offer_timeout w row = or_default row.offer_timeout_sec (or_default w.auto_offer_timeout_sec 300)

unfoldable pub auto_offer_one : World → Deposit → Depot → Deposit × Depot
unfolding lose_offer time_out_offer offer_timeout
auto_offer_one w row depot = elim (Dicts.get row.deposit_id depot.auto_started_at) [
  | none ↦ (withdraw row, lose_offer row depot)
  | some started ↦
      if ltb w.now (started + seconds (offer_timeout w row))
      then (row, depot)
      else (withdraw row, time_out_offer row depot)
]

unfoldable pub is_offering_multi : Deposit → Bool
is_offering_multi row = (row.role == depositor) && (row.status == offering_multi)

-- `_TRANSIT_BACKOFF`, past whose end the last entry stays.
abbrev pub transit_backoff : List ℕ
transit_backoff = 30 ∷ 60 ∷ 120 ∷ 240 ∷ 480 ∷ 960 ∷ 1920 ∷ 3600 ∷ 7200 ∷ 14400 ∷ []

abbrev pub nth_or_last : ℕ → List ℕ → ℕ
nth_or_last n [] = 0
nth_or_last n (x ∷ []) = x
nth_or_last zero (x ∷ y ∷ ys) = x
nth_or_last (suc n) (x ∷ y ∷ ys) = nth_or_last n (y ∷ ys)

unfoldable pub backoff_for_retry : ℕ → ℕ
backoff_for_retry retry_count = nth_or_last retry_count transit_backoff

unfoldable pub max_retries_of : World → Deposit → ℕ
unfolding or_default
max_retries_of w row = or_default row.transit_retries (or_default w.transit_max_retries 5)

unfoldable pub fail_transit : Deposit → Depot → Deposit × Depot
unfolding forget_key audit post announce
fail_transit row depot = (
  record row { status = failed_in_transit },
  announce (transit_failed row.deposit_id "max_retries") (
      audit "storage.transit_failed_max_retries" row.deposit_id
        (forget_key row (post row.host_uuid (delete_now row.deposit_id) depot))),
)

unfoldable pub transit_retry_one : World → Deposit → Depot → Deposit × Depot
unfolding fail_transit audit post parse_iso take_key max_retries_of backoff_for_retry or_default
transit_retry_one w row depot =
    let retries = or_default row.retry_count 0 in
    let (key, keys) = take_key w.now row.deposit_id depot.keys in
    let read = record depot { keys = keys } in
    let last_at = parse_iso w.now (stamp_or row.last_progress_at row.created_at) in
    let frame = resume_request row.deposit_id in
    let told = post row.host_uuid frame read in
    if leb (max_retries_of w row) retries
    then fail_transit row depot
    else if is_none key || is_peer_offline w.presence row.host_uuid
    then (row, read)
    else if ltb w.now (last_at + seconds (backoff_for_retry retries))
    then (row, read)
    else elim (w.send row.host_uuid frame) [
      | delivered ↦ (
        record row { retry_count = some (retries + 1) },
        audit "storage.transit_resume_requested" row.deposit_id told,
      )
      | _ ↦ (row, told)
    ]

unfoldable pub is_paused : Deposit → Bool
is_paused row =
    (row.role == depositor)
    && (row.status == paused_send_failed
        || row.status == paused_silent
        || row.status == paused_host_shutdown
        || row.status == paused_host_down)
