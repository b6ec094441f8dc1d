-- ===== src/Scheduler/Selection/Best.antt =====
-- The best candidate among the queued tasks.
use nexus_grid_grid.Prelude.Dicts
use nexus_grid_grid.Prelude.{
  true, false, text_key, ◌||◌, ◌≡◌, refl, List, [], ◌∷◌, Option, none, some, String, All, In,
  is_empty, arith, Bool-cases, Option-cases, inl, inr, ◌⊎◌, ap, ◌∙◌,
}
use nexus_grid_grid.Prelude.Int.{
  ℤ, int_lt_neg_trans, int_lt_asymm, lex_lt_neg_trans, lex_lt_asymm, lex_lt_irrefl, int_lt_irrefl,
}
use nexus_grid_grid.Tasks.Env.{Task}
use nexus_grid_grid.Scheduler.Selection.{
  Context, Key, key_lt, better, offer, best_candidate, candidate, candidate_key,
  select_task_for_worker, is_some, cooling, available_workers, metadata_of, targets_of,
}
use nexus_grid_grid.Scheduler.Selection.Chosen.{IsChosen, candidate-IsChosen}

key_lt_neg_trans : (a b c : Key) → key_lt a b ≡ false → key_lt b c ≡ false → key_lt a c ≡ false
unfolding key_lt
key_lt_neg_trans a b c h k = ground (
  arith,
  lex_lt_neg_trans a.score b.score c.score,
  lex_lt_neg_trans c.score a.score b.score,
  lex_lt_neg_trans b.score c.score a.score,
  lex_lt_neg_trans c.score b.score a.score,
  lex_lt_neg_trans a.score c.score b.score,
  lex_lt_neg_trans b.score a.score c.score,
  int_lt_neg_trans a.age b.age c.age,
  int_lt_neg_trans c.age a.age b.age,
  int_lt_neg_trans b.age c.age a.age,
  int_lt_neg_trans c.age b.age a.age,
  int_lt_neg_trans a.age c.age b.age,
  int_lt_neg_trans b.age a.age c.age,
)

key_lt_asymm : (a b : Key) → key_lt a b ≡ true → key_lt b a ≡ false
unfolding key_lt
key_lt_asymm a b h = ground (arith, lex_lt_asymm a.score b.score, int_lt_asymm a.age b.age)

key_lt_irrefl : (a : Key) → key_lt a a ≡ false
unfolding key_lt
key_lt_irrefl a = ground (arith, lex_lt_irrefl a.score, int_lt_irrefl a.age)

-- Nothing that is offered beats the key.
abbrev pub Unbeaten : Key → Option Key → Type 0
Unbeaten k none = Unit
Unbeaten k (some other) = key_lt k other ≡ false

abbrev pub UnbeatenPair : Key → Option (Key × Task) → Type 0
UnbeatenPair k none = Unit
UnbeatenPair k (some best) = key_lt k best.0 ≡ false

offer_kept :
    (k : Key) (o : Option Key) (t : Task) (best : Option (Key × Task))
    → UnbeatenPair k (offer o t best)
    → Unbeaten k o × UnbeatenPair k best
unfolding offer
offer_kept k none t best h = (tt, h)
offer_kept k (some key) t none h = (h, tt)
offer_kept k (some key) t (some (b, u)) h = elim (Bool-cases (key_lt b key)) [
  | inl better_key ↦
      let now : key_lt k key ≡ false = rw (better_key, better) at h in
      (now, key_lt_neg_trans k key b now (key_lt_asymm b key better_key))
  | inr worse ↦
      let now : key_lt k b ≡ false = rw (worse, better) at h in
      (key_lt_neg_trans k b key now worse, now)
]

offer_from :
    (o : Option Key) (t : Task) (best : Option (Key × Task)) {k : Key} {u : Task}
    → offer o t best ≡ some (k, u)
    → (best ≡ some (k, u)) ⊎ ((o ≡ some k) × (u ≡ t))
unfolding offer
offer_from none t best h = inl h
offer_from (some key) t none h = inr (ground arith, ground arith)
offer_from (some key) t (some (b, v)) h = ground arith

-- The winner is one of the offers, or the one held before, and none of these beats it.
best_candidate_wins :
    (f : Task → Option Key) (ts : List Task) (best : Option (Key × Task)) {k : Key} {t : Task}
    → best_candidate f ts best ≡ some (k, t)
    → ((best ≡ some (k, t)) ⊎ (In t ts × (f t ≡ some k)))
      × All (λ u. Unbeaten k (f u)) ts
      × UnbeatenPair k best
unfolding best_candidate
best_candidate_wins f [] best {k} {t} h = (inl h, tt, rw h (key_lt_irrefl k))
best_candidate_wins f (u ∷ us) best {k} {t} h =
    let later = best_candidate_wins f us (offer (f u) u best) h in
    let kept = offer_kept k (f u) u best later.2 in
    (
      elim later.0 [
        | inl held ↦ elim (offer_from (f u) u best held) [
          | inl before ↦ inl before
          | inr (here, same) ↦ inr (inl same, rw same here)
        ]
        | inr (inside, key_here) ↦ inr (inr inside, key_here)
      ],
      (kept.0, later.1),
      kept.1,
    )

winner_of :
    (ctx : Context) (worker : String) (queued : List Task) {t : Task}
    → is_some (Dicts.get worker ctx.all_workers) ≡ true
    → select_task_for_worker ctx worker queued ≡ some t
    → (key : Key) × (best_candidate (candidate ctx worker) queued none ≡ some (key, t))
unfolding select_task_for_worker
winner_of ctx worker [] known h = cc
winner_of ctx worker (first ∷ rest) {t} known h =
    elim (Option-cases (best_candidate (candidate ctx worker) (first ∷ rest) none)) [
      | inl nobody ↦ absurd (ground (arith, nobody))
      | inr (kt, won) ↦
          let same : kt.1 ≡ t = ground (arith, won) in (kt.0, won ∙ ap (λ u. some (kt.0, u)) same)
    ]

-- A known worker is given a queued task only if that task is a candidate for it, which makes it meet
-- every guard; and among the candidates for this worker none has a better key: a higher priority,
-- then a pinned worker, then the better score, then the greater age, then the larger RAM request.
pub select_task_for_worker_best :
    (ctx : Context) (worker : String) (queued : List Task) {t : Task}
    → is_some (Dicts.get worker ctx.all_workers) ≡ true
    → select_task_for_worker ctx worker queued ≡ some t
    → In t queued
      × ((key : Key) × (candidate ctx worker t ≡ some key)
          × ((s : List ℤ) × (key ≡ candidate_key ctx (metadata_of ctx t) worker t s)
              × IsChosen ctx (metadata_of ctx t) (targets_of ctx t) worker t s)
          × All (λ u. Unbeaten key (candidate ctx worker u)) queued)
select_task_for_worker_best ctx worker queued {t} known h =
    let (key, won) = winner_of ctx worker queued known h in
    let wins = best_candidate_wins (candidate ctx worker) queued none won in
    elim wins.0 [
      | inl impossible ↦ cc
      | inr (inside, key_of) ↦
          (inside, (key, key_of, candidate-IsChosen ctx worker t key_of, wins.1))
    ]

-- A worker in cool-down is given nothing, and neither is any known worker while no worker is available.
pub select_task_for_worker-cooling :
    (ctx : Context) (worker : String) (queued : List Task)
    → is_some (Dicts.get worker ctx.all_workers) ≡ true
    → (cooling ctx worker || is_empty (available_workers ctx)) ≡ true
    → select_task_for_worker ctx worker queued ≡ none
unfolding select_task_for_worker
select_task_for_worker-cooling ctx worker [] known h = refl
select_task_for_worker-cooling ctx worker (first ∷ rest) known h = ground arith
