-- ===== src/Scheduler/Selection/Chosen.antt =====
-- What is true of the task that a worker is given.
use mathlib.Core.Path.{subst}
use nexus_grid_grid.Prelude.Dicts
use nexus_grid_grid.Prelude.{
  ◌<◌, true, false, not, ◌&&◌, ◌≡◌, refl, List, [], ◌∷◌, Option, some, String, Dict, All, All-In,
  In, contains, ◌==◌, text_key, arith, eq_of_beq, Bool-cases, Option-cases, inl, inr, sym, select,
}
use nexus_grid_grid.Prelude.Int.{ℤ, lex_lt, lex_lt_irrefl}
use nexus_grid_grid.Tasks.Env.{Task, or_default}
use nexus_grid_grid.Tasks.Metadata.{Metadata, text_or}
use nexus_grid_grid.Scheduler.Fitness.{WorkerInfo, worker_fit_score}
use nexus_grid_grid.Scheduler.Selection.{
  Context, Key, permits, cooling, available_workers, supported, busy_workers, failed_workers_of,
  worker_score, score_each, may_compete, candidate_key, ranked, candidate, add_scored, claim,
  metadata_of, targets_of, is_some,
}
use nexus_grid_grid.Scheduler.Selection.Sorting.{
  Scored, Descending, All-sort_scored, All-unsort, sort_scored-Descending,
}

-- A worker that competes for a task is permitted by its targets, runs no sibling step that excludes
-- it, has not failed the task before, and supports it.
pub record Qualifies (ctx : Context) (metadata : Metadata) (allowed : Option (List String))
    (task : Task) (cid : String) (info : WorkerInfo) : Type 0 where
  pub permitted : permits allowed cid ≡ true
  pub apart : contains (busy_workers ctx metadata task) cid ≡ false
  pub untried : contains (failed_workers_of task) cid ≡ false
  pub able : supported ctx task info ≡ true

worker_score-Qualifies :
    (ctx : Context) (metadata : Metadata) (allowed : Option (List String)) (task : Task)
    (cid : String) (info : WorkerInfo) {s : List ℤ}
    → worker_score ctx metadata allowed task cid info ≡ some s
    → Qualifies ctx metadata allowed task cid info
unfolding worker_score
worker_score-Qualifies ctx metadata allowed task cid info h = ground arith

score_each-All :
    (P : String → WorkerInfo → Type 0) (score : String → WorkerInfo → Option (List ℤ))
    (ws : Dict String WorkerInfo)
    → All (λ w. P w.0 w.1) ws
    → All
        (λ e. (info : WorkerInfo) × P e.0 info × (score e.0 info ≡ some e.1))
        (score_each score ws)
unfolding score_each add_scored
score_each-All P score [] h = tt
score_each-All P score ((cid, info) ∷ ws) h = elim (Option-cases (score cid info)) [
  | inl none_here ↦ rw (none_here, add_scored) (score_each-All P score ws h.1)
  | inr (s, here) ↦ rw (here, add_scored) ((info, h.0, here), score_each-All P score ws h.1)
]

-- An available worker is a known one, out of cool-down.
Awake : Context → String × WorkerInfo → Type 0
Awake ctx w = In w ctx.all_workers × (cooling ctx w.0 ≡ false)

awake :
    (ctx : Context) (ws : Dict String WorkerInfo)
    → All (λ w. In w ctx.all_workers) ws
    → All (Awake ctx) (
        select
          (λ w. not (cooling ctx w.0) && is_some (worker_fit_score ctx.now w.1 128 10 false))
          ws)
unfolding Awake
awake ctx [] h = tt
awake ctx (w ∷ ws) h = ground (arith, awake ctx ws h.1)

-- Why a task is a candidate for a worker, under the score `s`.
pub record IsChosen (ctx : Context) (metadata : Metadata) (allowed : Option (List String))
    (worker : String) (task : Task) (s : List ℤ) : Type 0 where
  pub quota :
      or_default (Dicts.get (text_or metadata.requested_by "unknown") ctx.processing_by_master) 0
      < ctx.settings.master_quota_per_origin
  pub info : WorkerInfo
  pub known : In (worker, info) ctx.all_workers
  pub qualifies : Qualifies ctx metadata allowed task worker info
  pub scored : worker_score ctx metadata allowed task worker info ≡ some s
  pub ready : cooling ctx worker ≡ false
  pub unbeaten :
      All
        (λ e. lex_lt s e.1 ≡ false)
        (score_each (worker_score ctx metadata allowed task) (available_workers ctx))

quota_kept :
    (ctx : Context) (metadata : Metadata) (allowed : Option (List String)) (worker : String)
    (task : Task)
    → may_compete ctx metadata allowed worker task ≡ true
    → or_default (Dicts.get (text_or metadata.requested_by "unknown") ctx.processing_by_master) 0
      < ctx.settings.master_quota_per_origin
unfolding may_compete
quota_kept ctx metadata allowed worker task h = ground arith

Entry : Context → Metadata → Option (List String) → Task → Scored → Type 0
Entry ctx metadata allowed task e =
    (info : WorkerInfo) × Awake ctx (e.0, info)
    × (worker_score ctx metadata allowed task e.0 info ≡ some e.1)

ranked_entries :
    (ctx : Context) (metadata : Metadata) (allowed : Option (List String)) (task : Task)
    → All (Entry ctx metadata allowed task) (ranked ctx metadata allowed task)
unfolding ranked available_workers Entry
ranked_entries ctx metadata allowed task = All-sort_scored (Entry ctx metadata allowed task) _ (
    score_each-All (λ cid info. Awake ctx (cid, info)) (worker_score ctx metadata allowed task)
      (available_workers ctx) (awake ctx ctx.all_workers (All-In ctx.all_workers)))

head_unbeaten :
    (ctx : Context) (metadata : Metadata) (allowed : Option (List String)) (task : Task)
    (best : Scored) (rest : List Scored)
    → ranked ctx metadata allowed task ≡ best ∷ rest
    → All
        (λ e. lex_lt best.1 e.1 ≡ false)
        (score_each (worker_score ctx metadata allowed task) (available_workers ctx))
unfolding ranked
head_unbeaten ctx metadata allowed task best rest e =
    All-unsort (λ e. lex_lt best.1 e.1 ≡ false) _
      (subst (All (λ e. lex_lt best.1 e.1 ≡ false)) (sym e) (
        lex_lt_irrefl best.1,
        (subst Descending e (
            sort_scored-Descending
              (score_each (worker_score ctx metadata allowed task) (available_workers ctx)))).0,
      ))

claim-IsChosen :
    (ctx : Context) (worker : String) (task : Task) (entries : List Scored) {key : Key}
    → may_compete ctx (metadata_of ctx task) (targets_of ctx task) worker task ≡ true
    → ranked ctx (metadata_of ctx task) (targets_of ctx task) task ≡ entries
    → claim ctx worker task entries ≡ some key
    → (s : List ℤ) × (key ≡ candidate_key ctx (metadata_of ctx task) worker task s)
      × IsChosen ctx (metadata_of ctx task) (targets_of ctx task) worker task s
unfolding claim Entry Awake
claim-IsChosen ctx worker task [] may e h = cc
claim-IsChosen ctx worker task (best ∷ rest) may e h =
    let metadata = metadata_of ctx task in
    let allowed = targets_of ctx task in
    elim (Bool-cases (best.0 == worker)) [
      | inl mine ↦
          let entry : Entry ctx metadata allowed task best =
            (subst (All (Entry ctx metadata allowed task)) e
              (ranked_entries ctx metadata allowed task)).0 in
          (
            best.1,
            ground (arith, mine),
            subst (λ w. IsChosen ctx metadata allowed w task best.1) (eq_of_beq best.0 worker mine)
                (record {
                  quota = quota_kept ctx metadata allowed worker task may;
                  info = entry.0;
                  known = entry.1.0;
                  qualifies =
                      worker_score-Qualifies ctx metadata allowed task best.0 entry.0 entry.2;
                  scored = entry.2;
                  ready = entry.1.1;
                  unbeaten = head_unbeaten ctx metadata allowed task best rest e;
                }),
          )
      | inr other ↦ absurd (ground (arith, other))
    ]

-- A task is a candidate for a worker only if the task's origin is below its quota, the worker is
-- known, out of cool-down and qualifies for the task, and no available worker that qualifies outranks it.
pub candidate-IsChosen :
    (ctx : Context) (worker : String) (task : Task) {key : Key}
    → candidate ctx worker task ≡ some key
    → (s : List ℤ) × (key ≡ candidate_key ctx (metadata_of ctx task) worker task s)
      × IsChosen ctx (metadata_of ctx task) (targets_of ctx task) worker task s
unfolding candidate
candidate-IsChosen ctx worker task h =
    elim (Bool-cases (may_compete ctx (metadata_of ctx task) (targets_of ctx task) worker task)) [
      | inl may ↦ claim-IsChosen ctx worker task _ may refl (rw may at h)
      | inr barred ↦ absurd (ground (arith, barred))
    ]
