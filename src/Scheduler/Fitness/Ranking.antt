-- ===== src/Scheduler/Fitness/Ranking.antt =====
-- How the scores order the workers.
use nexus_grid_grid.Prelude.{
  ℕ, zero, suc, ◌<◌, ◌∙◌, lt→ltb, ◌-◌, ◌/◌, Bool, true, false, not, ◌||◌, ◌≡◌, refl, List, [], ◌∷◌,
  none, some, ltb, leb, ◌==◌, text_key, arith, if◌then◌else◌,
}
use nexus_grid_grid.Prelude.Int.{ℤ, pos, sub_ℕ, lex_lt, int_lt, int_lt_sub, int_lt_irrefl}
use nexus_grid_grid.Tasks.Env.{or_default, seconds}
use nexus_grid_grid.Scheduler.Fitness.{WorkerInfo, worker_fit_score, gpu_score, connection_of}

-- A worker has a score exactly when it was seen in the last twelve seconds and can take 128 MB.
pub worker_fit_score-none :
    (now : ℕ) (worker : WorkerInfo) (req_ram req_cpu : ℕ) (require_gpu : Bool)
    → (elim (worker_fit_score now worker req_ram req_cpu require_gpu) [
      | none ↦ true
      | some s ↦ false
    ])
      ≡ (ltb (seconds 12) (now - or_default worker.last_seen 0)
          || ltb (or_default worker.dispatch_ram_cap_mb (or_default worker.free_ram 0)) 128)
unfolding worker_fit_score
worker_fit_score-none now worker req_ram req_cpu require_gpu = ground arith

-- For a task that requires a GPU, each usable worker with one outranks each usable worker without;
-- for a task that does not, each usable worker without a GPU outranks each usable worker with one.
pub gpu_first :
    (now : ℕ) (v w : WorkerInfo) (req_ram req_cpu : ℕ) (require_gpu : Bool) {s t : List ℤ}
    → worker_fit_score now v req_ram req_cpu require_gpu ≡ some s
    → worker_fit_score now w req_ram req_cpu require_gpu ≡ some t
    → v.capabilities.gpu ≡ not require_gpu
    → w.capabilities.gpu ≡ require_gpu
    → lex_lt s t ≡ true
unfolding worker_fit_score lex_lt
gpu_first now v w req_ram req_cpu require_gpu hs ht gv gw = ground arith

-- Among usable workers alike in GPU, one on the LAN outranks one on another connection.
pub lan_first :
    (now : ℕ) (v w : WorkerInfo) (req_ram req_cpu : ℕ) (require_gpu : Bool) {s t : List ℤ}
    → worker_fit_score now v req_ram req_cpu require_gpu ≡ some s
    → worker_fit_score now w req_ram req_cpu require_gpu ≡ some t
    → v.capabilities.gpu ≡ w.capabilities.gpu
    → (connection_of v == "lan") ≡ false
    → (connection_of w == "lan") ≡ true
    → lex_lt s t ≡ true
unfolding worker_fit_score lex_lt
lan_first now v w req_ram req_cpu require_gpu hs ht g hv hw = ground arith

lex_lt_head : (x : ℤ) (xs ys : List ℤ) → lex_lt xs ys ≡ true → lex_lt (x ∷ xs) (x ∷ ys) ≡ true
unfolding lex_lt
lex_lt_head x xs ys h = rw (int_lt_irrefl x) h

lex_lt_first : (x y : ℤ) (xs ys : List ℤ) → int_lt x y ≡ true → lex_lt (x ∷ xs) (y ∷ ys) ≡ true
unfolding lex_lt
lex_lt_first x y xs ys h = rw h refl

below_at_seven :
    (a b c d e f x y : ℤ) (xs ys : List ℤ)
    → int_lt x y ≡ true
    → lex_lt (a ∷ b ∷ c ∷ d ∷ e ∷ f ∷ x ∷ xs) (a ∷ b ∷ c ∷ d ∷ e ∷ f ∷ y ∷ ys) ≡ true
below_at_seven a b c d e f x y xs ys h = lex_lt_head a _ _ (
    lex_lt_head b _ _ (
      lex_lt_head c _ _
        (lex_lt_head d _ _ (lex_lt_head e _ _ (lex_lt_head f _ _ (lex_lt_first x y xs ys h))))))

-- A worker that reports no CPU load at all is scored as one under full load: any other load below
-- 100, all else equal, gives a better score.
pub idle_cpu_ranked_last :
    (now load : ℕ) (w : WorkerInfo) (req_ram req_cpu : ℕ) (require_gpu : Bool) {s t : List ℤ}
    → worker_fit_score now (record w { cpu = some 0 }) req_ram req_cpu require_gpu ≡ some s
    → worker_fit_score now (record w { cpu = some load }) req_ram req_cpu require_gpu ≡ some t
    → 0 < load
    → load < 100
    → lex_lt s t ≡ true
unfolding worker_fit_score
idle_cpu_ranked_last now zero w req_ram req_cpu require_gpu hs ht pos_load below =
    absurd (omega arith)
idle_cpu_ranked_last now (suc n) w req_ram req_cpu require_gpu hs ht pos_load below =
    let apart = int_lt_sub req_cpu 100 (suc n) in
    let less : int_lt (sub_ℕ req_cpu 100) (sub_ℕ req_cpu (suc n)) ≡ true =
      apart ∙ lt→ltb (suc n) 100 below in
    let free = or_default w.free_ram 0 in
    let cap = or_default w.dispatch_ram_cap_mb free in
    let rest : List ℤ = pos free ∷ sub_ℕ 0 (or_default w.active_task_count 0) ∷ [] in
    ground (
      arith,
      below_at_seven (pos (gpu_score require_gpu w.capabilities.gpu))
          (pos (if connection_of w == "lan" then 2 else 1)) (pos (or_default w.bench 0 / 5))
          (pos (if leb req_ram cap then 1 else 0)) (sub_ℕ cap req_ram)
          (pos (or_default w.dispatch_gpu_cap_mb 0)) (sub_ℕ req_cpu 100) (sub_ℕ req_cpu (suc n))
          rest rest less,
    )
