-- ===== src/Scheduler/Release/Met.antt =====
-- When the dependencies of a task are met, by the rows that the table holds.
use nexus_grid_grid.Prelude.{
  ℕ, ◌+◌, ◌≤◌, suc, Bool, true, false, not, ◌&&◌, ◌||◌, ◌≡◌, refl, ap, ◌∙◌, sym, List, [], ◌∷◌,
  Option, none, some, String, length, is_empty, select, all, any, All, contains, if◌then◌else◌,
  ◌==◌, nat_eq, text_key, arith, eq_of_beq, Bool-cases, inl, inr,
}
use nexus_grid_grid.Prelude.Text.{csv_items}
use nexus_grid_grid.Tasks.State.{
  TaskState, waiting, queued, awaiting_approval, completed, state_key,
}
use nexus_grid_grid.Tasks.Env.{Task}
use nexus_grid_grid.Tasks.Node.{Settings}
use nexus_grid_grid.Scheduler.Release.{Pass, gate_on, deps_completed, dep_records, release_one}
use nexus_grid_grid.Scheduler.Release.Decision.{decision, Follows, release_one-decision}
use nexus_grid_grid.Scheduler.Release.Repeats.{
  UniqueIds, has_repeat, one_selected, found-le, found-lt,
}

-- A row of the table says that the task `id` is completed.
abbrev pub is_done : List Task → String → Bool
is_done rows id = any (λ r. (r.id == id) && (r.status == completed)) rows

-- The rule that the workflow gives a waiting task: the state it moves to, if any.
abbrev pub rule : Settings → List Task → Task → Option TaskState
rule settings rows task =
    let deps = csv_items task.depends_on in
    if is_empty deps
    then some queued
    else if not (has_repeat deps) && all (is_done rows) deps
    then some (if gate_on settings task then awaiting_approval else queued)
    else none

abbrev is_completed : Task → Bool
is_completed r = r.status == completed

absent_select :
    (d : String) (ts : List Task)
    → All (λ u. (u.id == d) ≡ false) ts
    → select (λ r. r.id == d) ts ≡ []
absent_select d [] h = refl
absent_select d (t ∷ ts) h = ground (arith, absent_select d ts h.1)

absent_done :
    (d : String) (ts : List Task) → All (λ u. (u.id == d) ≡ false) ts → is_done ts d ≡ false
absent_done d [] h = refl
absent_done d (t ∷ ts) h = ground (arith, absent_done d ts h.1)

one_done :
    (d : String) (ts : List Task)
    → UniqueIds ts
    → ((length (select (λ r. r.id == d) ts) == 1) && all is_completed (select (λ r. r.id == d) ts))
      ≡ is_done ts d
one_done d [] u = refl
one_done d (t ∷ ts) u = elim (Bool-cases (t.id == d)) [
  | inl here ↦
      let others : All (λ v. (v.id == d) ≡ false) ts = rw (eq_of_beq t.id d here) at u.0 in
      rw (here, absent_select d ts others, absent_done d ts others) (ground arith)
  | inr away ↦ rw away (one_done d ts u.1)
]

all_either :
    (p f g : Task → Bool) (ts : List Task)
    → all p (select (λ r. f r || g r) ts) ≡ (all p (select f ts) && all p (select g ts))
all_either p f g [] = refl
all_either p f g (t ∷ ts) = ground (arith, all_either p f g ts)

selected_apart :
    (f g : Task → Bool) (ts : List Task)
    → ((r : Task) → f r ≡ true → g r ≡ false)
    → length (select (λ r. f r || g r) ts) ≡ length (select f ts) + length (select g ts)
selected_apart f g [] apart = refl
selected_apart f g (t ∷ ts) apart = elim (Bool-cases (f t)) [
  | inl e ↦ rw (e, apart t e) (omega (arith, selected_apart f g ts apart))
  | inr e ↦ rw e (ground (arith, selected_apart f g ts apart))
]

full_sum : (a b n : ℕ) → a ≤ 1 → b ≤ n → (a + b == suc n) ≡ ((a == 1) && (b == n))
full_sum a b n h k = ground (arith, h, k)

none_found : (ts : List Task) → select (λ r. contains [] r.id) ts ≡ []
none_found [] = refl
none_found (t ∷ ts) = none_found ts

regroup : (a b c d x y : Bool) → (a && c) ≡ x → (b && d) ≡ y → ((a && b) && (c && d)) ≡ (x && y)
regroup a b c d x y h k = ground (arith, sym h, sym k)

completed_once :
    (rows : List Task) (deps : List String)
    → UniqueIds rows
    → has_repeat deps ≡ false
    → deps_completed rows deps ≡ all (is_done rows) deps
unfolding deps_completed dep_records
completed_once rows [] u h = rw (none_found rows) refl
completed_once rows (d ∷ ds) u h =
    let once : contains ds d ≡ false = ground (arith, h) in
    let fewer : has_repeat ds ≡ false = ground (arith, h) in
    let is_d = λ (r : Task). r.id == d in
    let in_ds = λ (r : Task). contains ds r.id in
    rw
      (
        selected_apart is_d in_ds rows (λ r e. ap (contains ds) (eq_of_beq r.id d e) ∙ once),
        all_either is_completed is_d in_ds rows,
        full_sum _ _ _ (one_selected d rows u) (found-le rows ds u),
      )
      (regroup (length (select is_d rows) == 1) (length (select in_ds rows) == length ds)
        (all is_completed (select is_d rows)) (all is_completed (select in_ds rows)) _ _
        (one_done d rows u) (completed_once rows ds u fewer))

repeat_unmet :
    (rows : List Task) (deps : List String)
    → UniqueIds rows
    → has_repeat deps ≡ true
    → deps_completed rows deps ≡ false
unfolding deps_completed
repeat_unmet rows deps u again = ground (arith, found-lt rows deps u again)

deps_completed-is_done :
    (rows : List Task) (deps : List String)
    → UniqueIds rows
    → deps_completed rows deps ≡ (not (has_repeat deps) && all (is_done rows) deps)
deps_completed-is_done rows deps u = elim (Bool-cases (has_repeat deps)) [
  | inl again ↦ rw again (repeat_unmet rows deps u again)
  | inr once ↦ rw once (completed_once rows deps u once)
]

decision-rule :
    (settings : Settings) (rows : List Task) (task : Task)
    → UniqueIds rows
    → decision settings rows task ≡ rule settings rows task
unfolding decision
decision-rule settings rows task u =
    rw (deps_completed-is_done rows (csv_items task.depends_on) u) (ground arith)

-- A step of the pass follows the rule for a waiting task, in a table whose ids are unique. A task
-- without dependencies is queued. A task that names no id twice, and for each id that it names the
-- table has a completed row, is held for approval where the gate is on, and queued where it is off.
-- Otherwise, as when a named row is missing, the pass leaves everything as it was. Only a task that is
-- queued is added to the dispatch queue, once.
pub release_one-rule :
    (settings : Settings) (now : ℕ) (task : Task) (pass : Pass)
    → UniqueIds pass.rows
    → task.status ≡ waiting
    → Follows pass (release_one settings now task pass) task (rule settings pass.rows task)
release_one-rule settings now task pass u w =
    rw (sym (decision-rule settings pass.rows task u))
      (release_one-decision settings now task pass w)
