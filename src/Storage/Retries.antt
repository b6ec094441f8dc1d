-- ===== src/Storage/Retries.antt =====
-- How the depositor's side retries: the back-off, and what one round does with a paused row.
use nexus_grid_grid.Prelude.Dicts
use nexus_grid_grid.Prelude.{
  ◌++◌, [], ◌∷◌, refl, inl, inr, Option-cases, ℕ, zero, suc, ◌+◌, ◌≤◌, Bool, true, false, not, ◌&&◌,
  ◌≡◌, some, String, if◌then◌else◌, leb, text_key, arith,
}
use nexus_grid_grid.Tasks.Env.{or_default, seconds}
use nexus_grid_grid.Presence.{is_peer_offline}
use nexus_grid_grid.Storage.Keys.{Bucket, take_key, drop_key, is_unlocked}
use nexus_grid_grid.Storage.Deposit.{
  failed_in_transit, parse_iso, stamp_or, Deposit, Depot, World, Sent, delivered, undelivered,
  raised, resume_request, delete_now, post, audit, announce, status_key,
}
use nexus_grid_grid.Storage.Depositor.{
  transit_retry_one, fail_transit, forget_key, is_none, max_retries_of, backoff_for_retry,
}

-- The back-off of a transfer never shrinks as retries are made, is half a minute at the least, and
-- never exceeds four hours.
pub backoff_for_retry_bounds :
    (n : ℕ)
    → (backoff_for_retry n ≤ backoff_for_retry (suc n))
      × (30 ≤ backoff_for_retry n)
      × (backoff_for_retry n ≤ 14400)
unfolding backoff_for_retry
backoff_for_retry_bounds zero = (omega arith, omega arith, omega arith)
backoff_for_retry_bounds (suc zero) = (omega arith, omega arith, omega arith)
backoff_for_retry_bounds (suc (suc zero)) = (omega arith, omega arith, omega arith)
backoff_for_retry_bounds (suc (suc (suc zero))) = (omega arith, omega arith, omega arith)
backoff_for_retry_bounds (suc (suc (suc (suc zero)))) = (omega arith, omega arith, omega arith)
backoff_for_retry_bounds (suc (suc (suc (suc (suc zero))))) =
    (omega arith, omega arith, omega arith)
backoff_for_retry_bounds (suc (suc (suc (suc (suc (suc zero)))))) =
    (omega arith, omega arith, omega arith)
backoff_for_retry_bounds (suc (suc (suc (suc (suc (suc (suc zero))))))) =
    (omega arith, omega arith, omega arith)
backoff_for_retry_bounds (suc (suc (suc (suc (suc (suc (suc (suc zero)))))))) =
    (omega arith, omega arith, omega arith)
backoff_for_retry_bounds (suc (suc (suc (suc (suc (suc (suc (suc (suc n))))))))) =
    (omega arith, omega arith, omega arith)

abbrev pub was_delivered : Sent → Bool
was_delivered delivered = true
was_delivered undelivered = false
was_delivered raised = false

key_there :
    (now : ℕ) (id : String) (bucket : Bucket)
    → is_none (take_key now id bucket).0 ≡ not (is_unlocked id bucket)
unfolding take_key is_unlocked
key_there now id bucket = ground arith

-- The retries are spent; else the frame goes out: the key is unlocked, the host is not marked offline,
-- and the back-off since the last progress is over.
abbrev pub is_spent : World → Deposit → Bool
is_spent w row = leb (max_retries_of w row) (or_default row.retry_count 0)

abbrev pub asks_host : World → Deposit → Depot → Bool
asks_host w row depot =
    is_unlocked row.deposit_id depot.keys
    && not (is_peer_offline w.presence row.host_uuid)
    && leb
        (parse_iso w.now (stamp_or row.last_progress_at row.created_at)
          + seconds (backoff_for_retry (or_default row.retry_count 0)))
        w.now

-- What a round leaves: the row, the frames that were sent, and whether the key is held.
pub record Decides (w : World) (row : Deposit) (depot : Depot) (out : Deposit × Depot)
    : Type 0 where
  pub row_after : out.0 ≡ (
      if is_spent w row
      then record row { status = failed_in_transit }
      else if asks_host w row depot
          && was_delivered (w.send row.host_uuid (resume_request row.deposit_id))
      then record row { retry_count = some (or_default row.retry_count 0 + 1) }
      else row)
  pub frames_after : out.1.sent ≡ (
      if is_spent w row
      then depot.sent ++ (row.host_uuid, delete_now row.deposit_id) ∷ []
      else if asks_host w row depot
      then depot.sent ++ (row.host_uuid, resume_request row.deposit_id) ∷ []
      else depot.sent)
  pub key_after :
      is_unlocked row.deposit_id out.1.keys
      ≡ (if is_spent w row then false else is_unlocked row.deposit_id depot.keys)

unlocked_after_take :
    (now : ℕ) (id : String) (bucket : Bucket)
    → is_unlocked id (take_key now id bucket).1 ≡ is_unlocked id bucket
unfolding take_key is_unlocked
unlocked_after_take now id bucket = elim (Option-cases (Dicts.get id bucket)) [
  | inl absent ↦ ground (arith, absent)
  | inr found ↦
      ground
        (arith, found.1, Dicts.get-insert_self id (record found.0 { last_used_at = now }) bucket)
]

unlocked_after_drop : (id : String) (bucket : Bucket) → is_unlocked id (drop_key id bucket) ≡ false
unfolding is_unlocked drop_key
unlocked_after_drop id bucket = rw (is_unlocked, Dicts.get-erase_self id bucket) refl

-- One round over a paused transfer gives it up exactly when its retries are spent: then it sends the
-- host the frame to delete, and the key is gone. Otherwise it asks the host to resume exactly when the
-- key is unlocked, the host is not marked offline and the back-off since the last progress is over;
-- it counts one retry exactly when that frame is delivered, keeps the key, and leaves the row as it
-- was in every other case.
pub transit_retry_one-Decides :
    (w : World) (row : Deposit) (depot : Depot)
    → Decides w row depot (transit_retry_one w row depot)
unfolding transit_retry_one fail_transit post audit announce forget_key
transit_retry_one-Decides w row depot = record {
  row_after = ground (
    arith,
    key_there w.now row.deposit_id depot.keys,
    w.send row.host_uuid (resume_request row.deposit_id),
  );
  frames_after = ground (
    arith,
    key_there w.now row.deposit_id depot.keys,
    w.send row.host_uuid (resume_request row.deposit_id),
  );
  key_after = ground (
    arith,
    unlocked_after_take w.now row.deposit_id depot.keys,
    unlocked_after_drop row.deposit_id depot.keys,
    w.send row.host_uuid (resume_request row.deposit_id),
  );
}
