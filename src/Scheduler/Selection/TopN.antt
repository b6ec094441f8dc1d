-- ===== src/Scheduler/Selection/TopN.antt =====
-- The replicas that `select_top_n_workers` picks.
use nexus_grid_grid.Prelude.{
  ℕ, zero, suc, ◌≤◌, true, false, ◌≡◌, refl, List, [], ◌∷◌, map, Option, some, String, Dict, All,
  All-In, In, length, take, drop, length-take-le, contains, text_key, arith, ap, Option-cases, inl,
  inr,
}
use nexus_grid_grid.Prelude.Int.{ℤ, lex_lt}
use nexus_grid_grid.Tasks.Env.{Task}
use nexus_grid_grid.Scheduler.Fitness.{WorkerInfo}
use nexus_grid_grid.Scheduler.Selection.{
  Context, permits, cooling, supported, top_score, add_scored, score_each, sort_scored,
  select_top_n_workers, metadata_of, allowed_targets,
}
use nexus_grid_grid.Scheduler.Selection.Sorting.{
  Scored, Descending, All-sort_scored, sort_scored-Descending,
}

-- A replica that may be picked.
pub record IsEligible (ctx : Context) (task : Task) (exclude : List String)
    (allowed : Option (List String)) (cid : String) : Type 0 where
  pub info : WorkerInfo
  pub known : In (cid, info) ctx.all_workers
  pub included : contains exclude cid ≡ false
  pub permitted : permits allowed cid ≡ true
  pub ready : cooling ctx cid ≡ false
  pub able : supported ctx task info ≡ true

top_score-IsEligible :
    (ctx : Context) (task : Task) (exclude : List String) (allowed : Option (List String))
    (cid : String) (info : WorkerInfo) {s : List ℤ}
    → In (cid, info) ctx.all_workers
    → top_score ctx exclude allowed task cid info ≡ some s
    → IsEligible ctx task exclude allowed cid
unfolding top_score
top_score-IsEligible ctx task exclude allowed cid info known h = record {
  info = info;
  known = known;
  included = ground arith;
  permitted = ground arith;
  ready = ground arith;
  able = ground arith;
}

module _ (ctx : Context) (task : Task) (exclude : List String)
    (allowed : Option (List String)) where
  entries-IsEligible :
      (ws : Dict String WorkerInfo)
      → All (λ w. In w ctx.all_workers) ws
      → All
          (λ e. IsEligible ctx task exclude allowed e.0)
          (score_each (top_score ctx exclude allowed task) ws)
  unfolding score_each add_scored
  entries-IsEligible [] h = tt
  entries-IsEligible ((cid, info) ∷ ws) h =
      elim (Option-cases (top_score ctx exclude allowed task cid info)) [
        | inl out ↦ rw (out, add_scored) (entries-IsEligible ws h.1)
        | inr (s, scored) ↦
            rw (scored, add_scored)
              (
                top_score-IsEligible ctx task exclude allowed cid info h.0 scored,
                entries-IsEligible ws h.1,
              )
      ]

All-take-map :
    (P : String → Type 0) (n : ℕ) (xs : List Scored)
    → All (λ e. P e.0) xs
    → All P (map (λ e. e.0) (take n xs))
All-take-map P zero xs h = tt
All-take-map P (suc n) [] h = tt
All-take-map P (suc n) (x ∷ xs) h = (h.0, All-take-map P n xs h.1)

All-drop : (P : Scored → Type 0) (n : ℕ) (xs : List Scored) → All P xs → All P (drop n xs)
All-drop P zero xs h = h
All-drop P (suc n) [] h = tt
All-drop P (suc n) (x ∷ xs) h = All-drop P n xs h.1

none_better :
    (n : ℕ) (xs : List Scored)
    → Descending xs
    → All (λ x. All (λ y. lex_lt x.1 y.1 ≡ false) (drop n xs)) (take n xs)
none_better zero xs d = tt
none_better (suc n) [] d = tt
none_better (suc n) (x ∷ xs) d =
    (All-drop (λ y. lex_lt x.1 y.1 ≡ false) n xs d.0, none_better n xs d.1)

length-names : (xs : List Scored) → length (map (λ e. e.0) xs) ≡ length xs
length-names [] = refl
length-names (x ∷ xs) = ap suc (length-names xs)

-- The ranking that the pick is the head of.
abbrev pub ranking : Context → Task → List String → List Scored
ranking ctx task exclude = sort_scored (
    score_each
      (top_score ctx exclude (allowed_targets ctx.resolve ctx.group_pool [] (metadata_of ctx task))
        task)
      ctx.all_workers)

-- At most `n` workers are picked, each of them eligible: known, not excluded, permitted by the task's groups,
-- out of cool-down and able. They are the head of the ranking, and none of the rest outranks any.
pub select_top_n_workers_best :
    (ctx : Context) (task : Task) (n : ℕ) (exclude : List String)
    → (length (select_top_n_workers ctx task n exclude) ≤ n)
      × All
          (IsEligible ctx task exclude
            (allowed_targets ctx.resolve ctx.group_pool [] (metadata_of ctx task)))
          (select_top_n_workers ctx task n exclude)
      × (select_top_n_workers ctx task n exclude
          ≡ map (λ e. e.0) (take n (ranking ctx task exclude)))
      × All
          (λ x. All (λ y. lex_lt x.1 y.1 ≡ false) (drop n (ranking ctx task exclude)))
          (take n (ranking ctx task exclude))
unfolding select_top_n_workers
select_top_n_workers_best ctx task n exclude =
    let allowed = allowed_targets ctx.resolve ctx.group_pool [] (metadata_of ctx task) in
    (
      rw length-names (length-take-le n (ranking ctx task exclude)),
      All-take-map (IsEligible ctx task exclude allowed) n (ranking ctx task exclude) (
          All-sort_scored (λ e. IsEligible ctx task exclude allowed e.0) _
            (entries-IsEligible ctx task exclude allowed ctx.all_workers (All-In ctx.all_workers))),
      refl,
      none_better n (ranking ctx task exclude) (sort_scored-Descending _),
    )
