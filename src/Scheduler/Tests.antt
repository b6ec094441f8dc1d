-- ===== src/Scheduler/Tests.antt =====
-- Runs on small inputs, and the theorems on the scheduler applied to them.
use nexus_grid_grid.Prelude.Dicts
use nexus_grid_grid.Prelude.{
  ◌≤◌, false, ◌≡◌, ◌≢◌, refl, List, [], ◌∷◌, map, some, String, All, In, length, take, drop, nat_eq,
  text_key, arith, ne_of_beq,
}
use nexus_grid_grid.Prelude.Text.{strip}
use nexus_grid_grid.Prelude.Int.{ℤ, lex_lt, sub_ℕ}
use nexus_grid_grid.Tasks.State.{queued, TaskState-discrete}
use nexus_grid_grid.Tasks.Metadata.{extract_task_metadata}
use nexus_grid_grid.Tasks.Env.{Task, task_created_at}
use nexus_grid_grid.Tasks.Lifecycle.{try_schedule_retry}
use nexus_grid_grid.Tasks.Samples.{node, settings, task_in, running}
use nexus_grid_grid.Scheduler.Reliability.{reliability_bucket}
use nexus_grid_grid.Scheduler.Release.{release_one, requeue_one}
use nexus_grid_grid.Scheduler.Release.Decision.{Follows}
use nexus_grid_grid.Scheduler.Release.Met.{rule, release_one-rule}
use nexus_grid_grid.Scheduler.Release.Requeue.{retry_waits}
use nexus_grid_grid.Scheduler.Images.{
  image_gate, normalize_list_field, ends_star, starts_with, drop_last,
}
use nexus_grid_grid.Scheduler.Fitness.{
  worker_supports_task, worker_unsupported_reason, worker_fit_score,
}
use nexus_grid_grid.Scheduler.Selection.{
  Context, Key, key_lt, best_candidate, allowed_targets, candidate, candidate_key, metadata_of,
  targets_of, select_task_for_worker, select_top_n_workers,
}
use nexus_grid_grid.Scheduler.Selection.Chosen.{IsChosen}
use nexus_grid_grid.Scheduler.Selection.Best.{Unbeaten, select_task_for_worker_best}
use nexus_grid_grid.Scheduler.Selection.TopN.{IsEligible, ranking, select_top_n_workers_best}
use nexus_grid_grid.Scheduler.Samples.{grid, last_step, rows, pass}

release_one-rule_example :
    Follows pass (release_one settings 5 last_step pass) last_step (rule settings rows last_step)
release_one-rule_example =
    release_one-rule settings 5 last_step pass ((refl, (refl, tt)), ((refl, tt), (tt, tt))) refl

retry_waits_example :
    requeue_one 300 (try_schedule_retry settings 100 running "boom" (some "w1") node).task pass
    ≡ pass
unfolding try_schedule_retry
retry_waits_example =
    retry_waits settings 100 300 running "boom" "w1" node pass (ground arith) (ground arith)

named : ◌≢◌ {A = String} "w1" ""
named = ne_of_beq "w1" "" refl

different : ◌≢◌ {A = String} "w1" "w2"
different = ne_of_beq "w1" "w2" refl

program : Unit {0}
unfolding worker_fit_score select_task_for_worker candidate Dicts.get best_candidate
    extract_task_metadata allowed_targets normalize_list_field worker_supports_task
    worker_unsupported_reason image_gate strip ends_star starts_with drop_last lex_lt
    reliability_bucket key_lt sub_ℕ task_created_at TaskState-discrete
program = tt

abbrev queue : List Task
queue = task_in "q" queued "" ∷ task_in "r" queued "" ∷ []

select_task_for_worker_best_example :
    In (task_in "q" queued "") queue
    × ((key : Key) × (candidate grid "w1" (task_in "q" queued "") ≡ some key)
        × ((s : List ℤ) × (key
              ≡ candidate_key grid
                  (metadata_of grid (task_in "q" queued ""))
                  "w1"
                  (task_in "q" queued "")
                  s)
            × IsChosen grid
                (metadata_of grid (task_in "q" queued ""))
                (targets_of grid (task_in "q" queued ""))
                "w1"
                (task_in "q" queued "")
                s)
        × All (λ u. Unbeaten key (candidate grid "w1" u)) queue)
unfolding program
select_task_for_worker_best_example = select_task_for_worker_best grid "w1" queue refl refl

abbrev resting : Context
resting = record grid { node = record node { worker_cooldown_until = ("w1", 200000) ∷ [] } }

select_top_n_workers_best_example :
    (length (select_top_n_workers grid last_step 2 ("w3" ∷ [])) ≤ 2)
    × All
        (IsEligible grid last_step
          ("w3" ∷ [])
          (allowed_targets grid.resolve grid.group_pool [] (metadata_of grid last_step)))
        (select_top_n_workers grid last_step 2 ("w3" ∷ []))
    × (select_top_n_workers grid last_step 2 ("w3" ∷ [])
        ≡ map (λ e. e.0) (take 2 (ranking grid last_step ("w3" ∷ []))))
    × All
        (λ x. All (λ y. lex_lt x.1 y.1 ≡ false) (drop 2 (ranking grid last_step ("w3" ∷ []))))
        (take 2 (ranking grid last_step ("w3" ∷ [])))
select_top_n_workers_best_example = select_top_n_workers_best grid last_step 2 ("w3" ∷ [])
