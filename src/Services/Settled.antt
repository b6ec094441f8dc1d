-- ===== src/Services/Settled.antt =====
-- After a health pass no service is left with a dead primary.
use mathlib.Core.Option
use nexus_grid_grid.Prelude.Dicts
use nexus_grid_grid.Prelude.{
  ℕ, Bool, true, false, ◌||◌, ◌≡◌, refl, sym, ◌∙◌, List, [], ◌∷◌, Option, none, some, String, Dict,
  All, All-select, In, select, if◌then◌else◌, ◌==◌, text_key, arith, eq_of_beq, ne_of_beq, beq_refl,
  ap, Bool-cases, Option-cases, inl, inr, ◌⊎◌,
}
use mathlib.Core.Path.{subst}
use nexus_grid_grid.Tasks.State.{lower_equals}
use nexus_grid_grid.Tasks.Metadata.{text_or}
use nexus_grid_grid.Services.Health.{
  Service, Services, promote_frame, primary_lost, worker_online, is_over, needs_failover, notify,
  update_live, fail_service, promote, fail_over, replace_primary, handle_candidate, handle_each,
  service_health_pass,
}

-- A service that is over, or whose primary is online.
unfoldable pub is_settled : ℕ → Dict String ℕ → Option Service → Bool
is_settled now active none = true
is_settled now active (some rec) = is_over rec || worker_online now active rec.worker_id

get-update_live :
    (id other : String) (f : Service → Service) (s : Services)
    → Dicts.get other (update_live id f s).service_records ≡ (
        if id == other
        then Option.map f (Dicts.get id s.service_records)
        else Dicts.get other s.service_records)
unfolding update_live
get-update_live id other f s = elim (Option-cases (Dicts.get id s.service_records)) [
  | inl gone ↦ rw (gone, update_live) (ground (arith, gone, eq_of_beq id other))
  | inr (live, found) ↦
      rw (found, update_live) (Dicts.get-insert id other (f live) s.service_records)
]

-- A handled candidate is settled, and the other services are as they were.
record Handled (now : ℕ) (id : String) (before after : Services) : Type 0 where
  same_workers : after.active_workers ≡ before.active_workers
  settled : is_settled now before.active_workers (Dicts.get id after.service_records) ≡ true
  others :
      (other : String)
      → (id == other) ≡ false
      → Dicts.get other after.service_records ≡ Dicts.get other before.service_records

workers_kept :
    (id : String) (f : Service → Service) (s : Services)
    → (update_live id f s).active_workers ≡ s.active_workers
unfolding update_live
workers_kept id f s = ground arith

update_live-Handled :
    (now : ℕ) (id : String) (f : Service → Service) (s : Services)
    → ((rec : Service) → is_settled now s.active_workers (some (f rec)) ≡ true)
    → Handled now id s (update_live id f s)
unfolding is_settled
update_live-Handled now id f s good = record {
  same_workers = workers_kept id f s;
  settled =
      rw (get-update_live id id f s, beq_refl id)
        (elim (Option-cases (Dicts.get id s.service_records)) [
          | inl gone ↦ rw gone refl
          | inr (live, found) ↦ rw found (good live)
        ]);
  others = λ other apart. get-update_live id other f s ∙ rw apart refl;
}

replace_primary-Handled :
    (now : ℕ) (id : String) (rec : Service) (standbys : List String) (s : Services)
    → All (λ w. worker_online now s.active_workers w ≡ true) standbys
    → Handled now id s (replace_primary now id rec standbys s)
unfolding replace_primary fail_over notify fail_service promote is_settled is_over
replace_primary-Handled now id rec [] s online =
    let h = update_live-Handled now id fail_service s (λ live. refl) in
    record { same_workers = h.same_workers; settled = h.settled; others = h.others }
replace_primary-Handled now id rec (w ∷ ws) s online =
    let change = promote now w in
    elim (Bool-cases (lower_equals (text_or rec.replica_strategy "snapshot") "snapshot")) [
      | inl framed ↦
          let h =
            update_live-Handled now id change (notify (promote_frame id w) s)
              (λ live. ground (arith, online.0)) in
          rw framed
            (record { same_workers = h.same_workers; settled = h.settled; others = h.others })
      | inr bare ↦
          let h = update_live-Handled now id change s (λ live. ground (arith, online.0)) in
          rw bare (record { same_workers = h.same_workers; settled = h.settled; others = h.others })
    ]

handle_candidate-Handled :
    (now : ℕ) (c : String × Service) (s : Services) → Handled now c.0 s (handle_candidate now c s)
unfolding handle_candidate notify
handle_candidate-Handled now (id, rec) s =
    let told = notify (primary_lost id) s in
    let h =
      replace_primary-Handled now id rec (select (worker_online now s.active_workers) rec.standbys)
        told (All-select (worker_online now s.active_workers) rec.standbys) in
    record { same_workers = h.same_workers; settled = h.settled; others = h.others }

each_settles :
    (now : ℕ) (cs : List (String × Service)) (s : Services) (id : String)
    → is_settled now s.active_workers (Dicts.get id s.service_records) ≡ true
      ⊎ ((rec : Service) × In (id, rec) cs)
    → is_settled now s.active_workers (Dicts.get id (handle_each now cs s).service_records) ≡ true
unfolding handle_each
each_settles now [] s id (inl good) = good
each_settles now [] s id (inr (rec, inside)) = absurd inside
each_settles now (c ∷ cs) s id h =
    let next = handle_candidate now c s in
    let step = handle_candidate-Handled now c s in
    subst (λ ws. is_settled now ws (Dicts.get id (handle_each now cs next).service_records) ≡ true)
      step.same_workers
      (each_settles now cs next id (
        subst
          (λ ws.
            is_settled now ws (Dicts.get id next.service_records) ≡ true
            ⊎ ((rec : Service) × In (id, rec) cs))
          (sym step.same_workers)
          (elim (Bool-cases (c.0 == id)) [
            | inl mine ↦ inl (
                subst
                  (λ i. is_settled now s.active_workers (Dicts.get i next.service_records) ≡ true)
                  (eq_of_beq c.0 id mine) step.settled)
            | inr apart ↦ elim h [
              | inl good ↦ inl (rw (step.others id apart) good)
              | inr (rec, inl here) ↦ absurd (ne_of_beq c.0 id apart (ap (λ e. e.0) (sym here)))
              | inr (rec, inr there) ↦ inr (rec, there)
            ]
          ])))

entry-In :
    (now : ℕ) (active : Dict String ℕ) (id : String) (rec : Service) (m : Dict String Service)
    → Dicts.get id m ≡ some rec
    → needs_failover now active rec ≡ true
    → In (id, rec) (select (λ entry. needs_failover now active entry.1) m)
unfolding Dicts.get
entry-In now active id rec [] found needs = absurd (cc)
entry-In now active id rec ((j, r) ∷ m) found needs = elim (Bool-cases (j == id)) [
  | inl mine ↦
      let same : r ≡ rec = ground (arith, mine) in
      rw (same, needs) (inl (ap (λ i. (i, rec)) (sym (eq_of_beq j id mine))))
  | inr apart ↦
      let deeper = entry-In now active id rec m (rw apart at found) needs in
      elim (Bool-cases (needs_failover now active r)) [
        | inl also ↦ rw also (inr deeper)
        | inr fine ↦ rw fine deeper
      ]
]

-- After a health pass each service in the table is failed or stopped, or its primary is online.
pub service_health_pass_settles :
    (now : ℕ) (s : Services) (id : String)
    → is_settled now s.active_workers (Dicts.get id (service_health_pass now s).service_records)
      ≡ true
unfolding service_health_pass is_settled needs_failover
service_health_pass_settles now s id =
    each_settles now _ s id (elim (Option-cases (Dicts.get id s.service_records)) [
      | inl gone ↦ inl (rw gone refl)
      | inr (rec, found) ↦ elim (Bool-cases (needs_failover now s.active_workers rec)) [
        | inl needs ↦ inr (rec, entry-In now s.active_workers id rec s.service_records found needs)
        | inr fine ↦ inl (rw found (ground (arith, fine)))
      ]
    ])
