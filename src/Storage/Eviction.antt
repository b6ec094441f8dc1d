-- ===== src/Storage/Eviction.antt =====
-- How long an eviction takes, over any number of passes.
use nexus_grid_grid.Prelude.{
  ℕ, ◌+◌, ◌-◌, ◌≤◌, ◌≡◌, refl, List, [], ◌∷◌, Option, if◌then◌else◌, leb, leb→le, ◌==◌, arith,
  Bool-cases, inl, inr,
}
use nexus_grid_grid.Storage.Deposit.{
  host, eviction_requested, in_db_grace, purged, at, parse_iso, days, Deposit, Depot, World,
  role_key, status_key, Status-discrete,
}
use nexus_grid_grid.Storage.Host.{
  total_days_of, response_window, grace_due, purge_due, move_to_db_grace, purge_deposit,
  lifecycle_one, in_lifecycle,
}

-- What the lifecycle does to one row, in passes at the given times.
unfoldable pub passes_at : World → List ℕ → Deposit → Depot → Deposit × Depot
passes_at w [] row depot = (row, depot)
passes_at w (t ∷ ts) row depot =
    let (row', depot') =
      if in_lifecycle row then lifecycle_one (record w { now = t }) row depot else (row, depot) in
    passes_at w ts row' depot'

-- How far an eviction asked for at `t0` has come.
pub data Phase (t0 : ℕ) (total : Option ℕ) (row : Deposit) : Type 0 where
  asked :
      row.status ≡ eviction_requested
      → row.eviction_requested_at ≡ at t0
      → row.eviction_total_days ≡ total
      → Phase t0 total row
  in_grace :
      (g : ℕ)
      → row.status ≡ in_db_grace
      → row.db_grace_at ≡ at g
      → row.eviction_total_days ≡ total
      → t0 + days (response_window (total_days_of total)) ≤ g
      → Phase t0 total row
  gone :
      (t : ℕ)
      → row.status ≡ purged
      → row.purged_at ≡ at t
      → t0 + days (total_days_of total) ≤ t
      → Phase t0 total row

window-le : (total : Option ℕ) → response_window (total_days_of total) ≤ total_days_of total
unfolding response_window total_days_of
window-le total = ground arith

step-Phase :
    (w : World) (t0 : ℕ) (total : Option ℕ) (row : Deposit) (depot : Depot)
    → Phase t0 total row
    → Phase t0 total (if in_lifecycle row then lifecycle_one w row depot else (row, depot)).0
unfolding in_lifecycle lifecycle_one grace_due purge_due move_to_db_grace purge_deposit
    Status-discrete parse_iso
step-Phase w t0 total row depot (asked s r d) = elim (Bool-cases (row.role == host)) [
  | inr n ↦ rw n (asked s r d)
  | inl y ↦
      rw (y, s, r)
        (elim (Bool-cases
          (leb (t0 + days (response_window (total_days_of row.eviction_total_days))) w.now)) [
            | inr early ↦ rw early (asked refl refl d)
            | inl late ↦ rw late (
                in_grace w.now refl refl d (
                  let when =
                    leb→le (t0 + days (response_window (total_days_of row.eviction_total_days)))
                      w.now late in
                  rw d at when))
          ])
]
step-Phase w t0 total row depot (in_grace g s r d le) = elim (Bool-cases (row.role == host)) [
  | inr n ↦ rw n (in_grace g s r d le)
  | inl y ↦
      let total_days = total_days_of row.eviction_total_days in
      rw (y, s, r)
        (elim (Bool-cases (leb (g + days (total_days - response_window total_days)) w.now)) [
          | inr early ↦ rw early (in_grace g refl refl d le)
          | inl late ↦ rw late (
              gone w.now refl refl (
                let when = leb→le (g + days (total_days - response_window total_days)) w.now late in
                let bound : g + days (total_days_of total - response_window (total_days_of total))
                    ≤ w.now =
                  rw d at when in
                omega (arith, window-le total)))
        ])
]
step-Phase w t0 total row depot (gone t s r le) = elim (Bool-cases (row.role == host)) [
  | inr n ↦ rw n (gone t s r le)
  | inl y ↦ rw (y, s) (gone t refl r le)
]

passes-Phase :
    (w : World) (ts : List ℕ) (t0 : ℕ) (total : Option ℕ) (row : Deposit) (depot : Depot)
    → Phase t0 total row
    → Phase t0 total (passes_at w ts row depot).0
unfolding passes_at
passes-Phase w [] t0 total row depot p = p
passes-Phase w (t ∷ ts) t0 total row depot p =
    let now = record w { now = t } in
    let after = if in_lifecycle row then lifecycle_one now row depot else (row, depot) in
    passes-Phase w ts t0 total after.0 after.1 (step-Phase now t0 total row depot p)

purged_when :
    {t0 : ℕ} {total : Option ℕ} (row : Deposit)
    → Phase t0 total row
    → row.status ≡ purged
    → (t : ℕ) × (row.purged_at ≡ at t) × (t0 + days (total_days_of total) ≤ t)
purged_when row (asked s r d) e = absurd (cc)
purged_when row (in_grace g s r d le) e = absurd (cc)
purged_when row (gone t s r le) e = (t, r, le)

-- However often and whenever the passes run, a deposit whose eviction was asked for at `t0` is purged
-- only after the days that its row gives: three where the row has none, and one at the least.
pub purged_after_total_days :
    (w : World) (ts : List ℕ) (t0 : ℕ) (row : Deposit) (depot : Depot)
    → row.status ≡ eviction_requested
    → row.eviction_requested_at ≡ at t0
    → (passes_at w ts row depot).0.status ≡ purged
    → (t : ℕ) × ((passes_at w ts row depot).0.purged_at ≡ at t)
      × (t0 + days (total_days_of row.eviction_total_days) ≤ t)
purged_after_total_days w ts t0 row depot s r e =
    purged_when _ (passes-Phase w ts t0 row.eviction_total_days row depot (asked s r refl)) e
