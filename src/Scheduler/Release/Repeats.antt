-- ===== src/Scheduler/Release/Repeats.antt =====
-- A repeated id in `depends_on`, and the counts of a whole pass.
use nexus_grid_grid.Prelude.{
  ℕ, ◌+◌, ◌≤◌, ◌<◌, Bool, true, false, ◌||◌, ◌≡◌, refl, List, [], ◌∷◌, Option, none, some, String,
  length, select, All, contains, ◌==◌, nat_eq, text_key, arith, eq_of_beq, Bool-cases, inl, inr,
  length-append,
}
use nexus_grid_grid.Prelude.Text.{csv_items}
use nexus_grid_grid.Tasks.State.{TaskState, waiting, state_key}
use nexus_grid_grid.Tasks.Env.{Task}
use nexus_grid_grid.Tasks.Node.{Node, Settings}
use nexus_grid_grid.Scheduler.Release.{
  Pass, deps_completed, dep_records, release_one, release_each, release_ready_tasks,
}
use nexus_grid_grid.Scheduler.Release.Decision.{decision, Follows, release_one-decision}

-- `id` is the primary key of the task table.
abbrev pub UniqueIds : List Task → Type 0
UniqueIds [] = Unit
UniqueIds (t ∷ ts) = All (λ u. (u.id == t.id) ≡ false) ts × UniqueIds ts

abbrev pub has_repeat : List String → Bool
has_repeat [] = false
has_repeat (x ∷ xs) = contains xs x || has_repeat xs

none_selected :
    (d : String) (ts : List Task)
    → All (λ u. (u.id == d) ≡ false) ts
    → length (select (λ r. r.id == d) ts) ≡ 0
none_selected d [] h = refl
none_selected d (t ∷ ts) h = ground (arith, none_selected d ts h.1)

pub one_selected :
    (d : String) (ts : List Task) → UniqueIds ts → length (select (λ r. r.id == d) ts) ≤ 1
one_selected d [] h = omega arith
one_selected d (t ∷ ts) h = elim (Bool-cases (t.id == d)) [
  | inl here ↦ rw here (omega (arith, none_selected d ts (rw (eq_of_beq t.id d here) at h.0)))
  | inr away ↦ rw away (one_selected d ts h.1)
]

selected_either :
    (f g : Task → Bool) (ts : List Task)
    → length (select (λ r. f r || g r) ts) ≤ length (select f ts) + length (select g ts)
selected_either f g [] = omega arith
selected_either f g (t ∷ ts) = ground (arith, selected_either f g ts)

pub found-le :
    (rows : List Task) (deps : List String)
    → UniqueIds rows
    → length (dep_records rows deps) ≤ length deps
unfolding dep_records
found-le rows [] h = omega (arith, none_at_all rows)
  where
    none_at_all : (ts : List Task) → length (select (λ r. contains [] r.id) ts) ≡ 0
    none_at_all [] = refl
    none_at_all (t ∷ ts) = none_at_all ts
found-le rows (d ∷ ds) h = omega (
  arith,
  selected_either (λ r. r.id == d) (λ r. contains ds r.id) rows,
  one_selected d rows h,
  found-le rows ds h,
)

same_selection :
    (d : String) (ds : List String) (ts : List Task)
    → contains ds d ≡ true
    → select (λ r. contains (d ∷ ds) r.id) ts ≡ select (λ r. contains ds r.id) ts
same_selection d ds [] h = refl
same_selection d ds (t ∷ ts) h = elim (Bool-cases (t.id == d)) [
  | inl here ↦
      let inside : contains ds t.id ≡ true = rw (eq_of_beq t.id d here) h in
      rw (here, inside, same_selection d ds ts h)
  | inr away ↦ rw (away, same_selection d ds ts h)
]

pub found-lt :
    (rows : List Task) (deps : List String)
    → UniqueIds rows
    → has_repeat deps ≡ true
    → length (dep_records rows deps) < length deps
unfolding dep_records
found-lt rows [] u h = cc
found-lt rows (d ∷ ds) u h = elim (Bool-cases (contains ds d)) [
  | inl again ↦ rw (same_selection d ds rows again) (omega (arith, found-le rows ds u))
  | inr once ↦
      let deeper : has_repeat ds ≡ true = rw once at h in
      omega (
        arith,
        selected_either (λ r. r.id == d) (λ r. contains ds r.id) rows,
        one_selected d rows u,
        found-lt rows ds u deeper,
      )
]

-- In a table whose ids are unique, a task whose `depends_on` names one id twice is never queued and
-- never held for approval, even when every task that it names is completed.
pub decision_of_repeat :
    (settings : Settings) (rows : List Task) (task : Task)
    → UniqueIds rows
    → has_repeat (csv_items task.depends_on) ≡ true
    → decision settings rows task ≡ none
unfolding decision deps_completed
decision_of_repeat settings rows task u h =
    repeat_blocks settings rows task (csv_items task.depends_on) refl u h
  where
    repeat_blocks :
        (settings : Settings) (rows : List Task) (task : Task) (deps : List String)
        → csv_items task.depends_on ≡ deps
        → UniqueIds rows
        → has_repeat deps ≡ true
        → decision settings rows task ≡ none
    repeat_blocks settings rows task [] e u h = cc
    repeat_blocks settings rows task (d ∷ ds) e u h =
        rw (e, decision) (ground (arith, found-lt rows (d ∷ ds) u h))

step_count :
    (before after : Pass) (task : Task) (to : Option TaskState)
    → Follows before after task to
    → length after.node.task_queue + before.queued_now
      ≡ length before.node.task_queue + after.queued_now
step_count before after task none h = rw h
step_count before after task (some target) h =
    rw (h.queue, h.queued_now, length-append) (ground arith)

each_count :
    (settings : Settings) (now : ℕ) (ts : List Task) (pass : Pass)
    → All (λ t. t.status ≡ waiting) ts
    → length (release_each settings now ts pass).node.task_queue + pass.queued_now
      ≡ length pass.node.task_queue + (release_each settings now ts pass).queued_now
unfolding release_each
each_count settings now [] pass h = refl
each_count settings now (t ∷ ts) pass h =
    let one = release_one settings now t pass in
    omega (
      arith,
      step_count pass one t _ (release_one-decision settings now t pass h.0),
      each_count settings now ts one h.1,
    )

selected_waiting :
    (rows : List Task) → All (λ t. t.status ≡ waiting) (select (λ t. t.status == waiting) rows)
selected_waiting [] = tt
selected_waiting (t ∷ ts) = ground (arith, eq_of_beq t.status waiting, selected_waiting ts)

-- The count that a pass reports is the number of ids that it put on the dispatch queue.
pub release_ready_tasks_count :
    (settings : Settings) (now : ℕ) (rows : List Task) (node : Node)
    → length (release_ready_tasks settings now rows node).node.task_queue
      ≡ length node.task_queue + (release_ready_tasks settings now rows node).queued_now
unfolding release_ready_tasks
release_ready_tasks_count settings now rows node =
    let start : Pass = record { rows = rows; node = node; queued_now = 0; gated_now = 0 } in
    omega (arith, each_count settings now _ start (selected_waiting rows))
