-- ===== src/Storage/Handlers.antt =====
-- What the handler of each loop makes of a row.
use nexus_grid_grid.Prelude.Dicts
use nexus_grid_grid.Prelude.{
  ℕ, Bool, true, false, ◌&&◌, ◌||◌, ◌≡◌, refl, some, if◌then◌else◌, ◌==◌, text_key, arith, ◌+◌, not,
  ltb, leb, and_parts, Bool-cases, Option-cases, inl, inr, eq_of_beq,
}
use nexus_grid_grid.Storage.Deposit.{
  Role, host, depositor, Status, stored, eviction_requested, in_db_grace, queued_offline, Deposit,
  Depot, World, role_key, status_key, Sent, delivered, undelivered, raised, storage_offer,
  resume_request, is_set, parse_iso, stamp_or, hours, offering_multi, transferring,
  paused_send_failed, paused_silent, paused_host_shutdown, paused_host_down,
  paused_depositor_shutdown, paused_depositor_down,
}
use nexus_grid_grid.Storage.Deposit.Graph.{
  Edge, expire, decommission, purge, abandon, send_offer, give_up_offer, cancel_offers,
  fail_transit as give_up_transfer, IsStalled, IsPaused, moving, host_send, host_silent, left, lost,
  send, silent, shutdown, down, Kept, Kept-refl, Late,
}
use nexus_grid_grid.Storage.Host.{
  lifecycle_one, in_lifecycle, tripwire_one, purge_abandoned_one, is_abandoned, move_to_db_grace,
  purge_deposit, start_eviction, grace_due, purge_due, ttl_over,
}
use nexus_grid_grid.Storage.Depositor.{
  queue_retry_one, is_queued_offline, auto_offer_one, is_offering_multi, transit_retry_one,
  is_paused, fail_transit, is_none, offer_timeout, withdraw, time_out_offer, max_retries_of,
  backoff_for_retry,
}
use nexus_grid_grid.Tasks.Env.{or_default, seconds}
use nexus_grid_grid.Presence.{is_peer_offline}
use nexus_grid_grid.Storage.Keys.{take_key}

-- The row that a handler gives. The name stays shut, so that a proof follows the handler's tests.
unfoldable pub KeptBy : Deposit → Deposit × Depot → Type 0
KeptBy row out = Kept row out.0

stays : (row : Deposit) (depot : Depot) → KeptBy row (row, depot)
unfolding KeptBy
stays row depot = Kept-refl row

moves :
    (row : Deposit) (out : Deposit × Depot) {r : Role} {s t : Status}
    → (row.role == r) ≡ true
    → (row.status == s) ≡ true
    → out.0.deposit_id ≡ row.deposit_id
    → out.0.role ≡ row.role
    → out.0.status ≡ t
    → Edge r s t
    → KeptBy row out
unfolding KeptBy
moves row out {r} {s} {t} hr hs same role status edge =
    let on_side = eq_of_beq row.role r hr in
    let from = eq_of_beq row.status s hs in
    record { same_id = same; same_role = role; step = inr (rw (on_side, from, status) edge) }

-- Either branch, each under its test.
branch :
    (row : Deposit) (test : Bool) (x y : Deposit × Depot)
    → (test ≡ true → KeptBy row x)
    → (test ≡ false → KeptBy row y)
    → KeptBy row (if test then x else y)
branch row true x y yes_case no_case = yes_case refl
branch row false x y yes_case no_case = no_case refl

in_state :
    (row : Deposit) (s : Status) (set : Bool)
    → ((row.status == s) && set) ≡ true
    → (row.status == s) ≡ true
in_state row s set h = ground arith

pub lifecycle_one-KeptBy :
    (w : World) (row : Deposit) (depot : Depot)
    → in_lifecycle row ≡ true
    → KeptBy row (lifecycle_one w row depot)
unfolding lifecycle_one in_lifecycle move_to_db_grace purge_deposit start_eviction
lifecycle_one-KeptBy w row depot h =
    let on_host : (row.role == host) ≡ true = ground arith in
    elim (Bool-cases ((row.status == eviction_requested) && is_set row.eviction_requested_at)) [
      | inl e ↦ rw e (
          branch row (grace_due w row) (move_to_db_grace w row depot) (row, depot)
            (λ late. moves row _ on_host (in_state row _ _ e) refl refl refl decommission)
            (λ early. stays row depot))
      | inr n ↦ rw n (elim (Bool-cases ((row.status == in_db_grace) && is_set row.db_grace_at)) [
        | inl e ↦ rw e (
            branch row (purge_due w row) (purge_deposit w row depot) (row, depot)
              (λ late. moves row _ on_host (in_state row _ _ e) refl refl refl purge)
              (λ early. stays row depot))
        | inr n' ↦ rw n' (elim (Bool-cases ((row.status == stored) && is_set row.ttl_at)) [
          | inl e ↦ rw e (
              branch row (ttl_over w row) (start_eviction w row depot) (row, depot)
                (λ late. moves row _ on_host (in_state row _ _ e) refl refl refl expire)
                (λ early. stays row depot))
          | inr n'' ↦ rw n'' (stays row depot)
        ])
      ])
    ]

pub tripwire_one-Late :
    (w : World) (row : Deposit) (depot : Depot) → Late row (tripwire_one w row depot).0
unfolding tripwire_one
tripwire_one-Late w row depot = inl (ground arith)

sent-KeptBy :
    (row after : Deposit) (reply : Sent) (d1 d2 : Depot)
    → KeptBy row (after, d1)
    → KeptBy row (elim reply [ delivered ↦ (after, d1) | _ ↦ (row, d2) ])
sent-KeptBy row after delivered d1 d2 h = h
sent-KeptBy row after undelivered d1 d2 h = stays row d2
sent-KeptBy row after raised d1 d2 h = stays row d2

pub queue_retry_one-KeptBy :
    (w : World) (row : Deposit) (depot : Depot)
    → is_queued_offline row ≡ true
    → KeptBy row (queue_retry_one w row depot)
unfolding queue_retry_one is_queued_offline
queue_retry_one-KeptBy w row depot h =
    let parts = and_parts (row.role == depositor) (row.status == queued_offline) h in
    let key = (take_key w.now row.deposit_id depot.keys).0 in
    elim (Bool-cases (ltb (parse_iso w.now row.created_at + hours 24) w.now || is_none key)) [
      | inl over ↦ rw over (moves row _ parts.0 parts.1 refl refl refl give_up_offer)
      | inr live ↦ rw live (elim (Bool-cases (is_peer_offline w.presence row.host_uuid)) [
        | inl away ↦ rw away (stays row _)
        | inr near ↦ rw near (
            sent-KeptBy row _ (w.send row.host_uuid (storage_offer row)) _ _
              (moves row _ parts.0 parts.1 refl refl refl send_offer))
      ])
    ]

pub auto_offer_one-KeptBy :
    (w : World) (row : Deposit) (depot : Depot)
    → is_offering_multi row ≡ true
    → KeptBy row (auto_offer_one w row depot)
unfolding auto_offer_one is_offering_multi
auto_offer_one-KeptBy w row depot h =
    let parts = and_parts (row.role == depositor) (row.status == offering_multi) h in
    elim (Option-cases (Dicts.get row.deposit_id depot.auto_started_at)) [
      | inl lost_state ↦
          rw (lost_state, auto_offer_one) (moves row _ parts.0 parts.1 refl refl refl cancel_offers)
      | inr (started, known) ↦
          rw (known, auto_offer_one)
            (branch row (ltb w.now (started + seconds (offer_timeout w row))) (row, depot)
              (withdraw row, time_out_offer row depot) (λ early. stays row depot)
              (λ late. moves row _ parts.0 parts.1 refl refl refl cancel_offers))
    ]

-- The four paused states, and the five stalled ones.
IsPaused-from :
    (row : Deposit)
    → is_paused row ≡ true
    → (s : Status) × ((row.role == depositor) ≡ true) × ((row.status == s) ≡ true) × IsPaused s
unfolding is_paused
IsPaused-from row h = elim (Bool-cases (row.status == paused_send_failed)) [
  | inl e ↦ (_, ground arith, e, send)
  | inr n1 ↦ elim (Bool-cases (row.status == paused_silent)) [
    | inl e ↦ (_, ground arith, e, silent)
    | inr n2 ↦ elim (Bool-cases (row.status == paused_host_shutdown)) [
      | inl e ↦ (_, ground arith, e, shutdown)
      | inr n3 ↦ (paused_host_down, ground arith, ground arith, down)
    ]
  ]
]

IsStalled-from :
    (row : Deposit)
    → is_abandoned row ≡ true
    → (s : Status) × ((row.role == host) ≡ true) × ((row.status == s) ≡ true) × IsStalled s
unfolding is_abandoned
IsStalled-from row h = elim (Bool-cases (row.status == transferring)) [
  | inl e ↦ (_, ground arith, e, moving)
  | inr n1 ↦ elim (Bool-cases (row.status == paused_send_failed)) [
    | inl e ↦ (_, ground arith, e, host_send)
    | inr n2 ↦ elim (Bool-cases (row.status == paused_silent)) [
      | inl e ↦ (_, ground arith, e, host_silent)
      | inr n3 ↦ elim (Bool-cases (row.status == paused_depositor_shutdown)) [
        | inl e ↦ (_, ground arith, e, left)
        | inr n4 ↦ (paused_depositor_down, ground arith, ground arith, lost)
      ]
    ]
  ]
]

counted_on :
    (row : Deposit) (n : ℕ) (depot : Depot)
    → KeptBy row (record row { retry_count = some n }, depot)
unfolding KeptBy
counted_on row n depot = record { same_id = refl; same_role = refl; step = inl refl }

pub transit_retry_one-KeptBy :
    (w : World) (row : Deposit) (depot : Depot)
    → is_paused row ≡ true
    → KeptBy row (transit_retry_one w row depot)
unfolding transit_retry_one fail_transit
transit_retry_one-KeptBy w row depot h =
    let (s, side, from, is_one) = IsPaused-from row h in
    let retries = or_default row.retry_count 0 in
    let key = (take_key w.now row.deposit_id depot.keys).0 in
    let last_at = parse_iso w.now (stamp_or row.last_progress_at row.created_at) in
    elim (Bool-cases (leb (max_retries_of w row) retries)) [
      | inl spent ↦ rw spent (moves row _ side from refl refl refl (give_up_transfer is_one))
      | inr more ↦
          rw more (elim (Bool-cases (is_none key || is_peer_offline w.presence row.host_uuid)) [
            | inl away ↦ rw away (stays row _)
            | inr near ↦
                rw near
                  (elim (Bool-cases (ltb w.now (last_at + seconds (backoff_for_retry retries)))) [
                    | inl early ↦ rw early (stays row _)
                    | inr due ↦ rw due (
                        sent-KeptBy row _ (w.send row.host_uuid (resume_request row.deposit_id)) _ _
                          (counted_on row (retries + 1) _))
                  ])
          ])
    ]

pub abandoned-KeptBy :
    (w : World) (row : Deposit) (depot : Depot)
    → is_abandoned row ≡ true
    → KeptBy row (purge_abandoned_one w row depot)
unfolding purge_abandoned_one
abandoned-KeptBy w row depot h =
    let (s, side, from, is_one) = IsStalled-from row h in
    let anchor = stamp_or row.last_progress_at row.created_at in
    let ttl = hours (or_default w.abandoned_chunk_ttl_hours 24) in
    elim (Bool-cases (not (is_set anchor) || not (ltb (parse_iso w.now anchor + ttl) w.now))) [
      | inl live ↦ rw live (stays row depot)
      | inr over ↦ rw over (moves row _ side from refl refl refl (abandon is_one))
    ]
