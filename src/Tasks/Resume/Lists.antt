-- ===== src/Tasks/Resume/Lists.antt =====
-- Which rows are on the lists of a plan.
use nexus_grid_grid.Prelude.Dicts
use nexus_grid_grid.Prelude.{
  Bool, true, false, not, ◌&&◌, ◌||◌, ◌≡◌, refl, inl, inr, List, [], ◌∷◌, Option, none, some,
  String, Dict, contains, all, if◌then◌else◌, ◌==◌, text_key, nat_eq, arith, Bool-cases, beq_comm,
}
use nexus_grid_grid.Prelude.Text.{csv_items}
use nexus_grid_grid.Tasks.State.{TaskState, waiting, queued, completed, state_key}
use nexus_grid_grid.Tasks.Env.{Task}
use nexus_grid_grid.Tasks.Resume.{
  Table, failed_states, Plan, statuses, is_completed, place, plan_each, steps_of,
}
use nexus_grid_grid.Tasks.Resume.Rows.{View, view, view_at, requeued_view, rearmed_view}

-- Whether a task is a step of the workflow, and one that stalled.
unfoldable pub is_step : String → View → Bool
is_step workflow_id v = v.parent_id == workflow_id

unfoldable pub is_stalled : String → View → Bool
unfolding is_step failed_states
is_stalled workflow_id v = is_step workflow_id v && contains failed_states v.status

-- Whether a task of the table is a completed step of the workflow.
unfoldable pub is_done : String → Table → String → Bool
unfolding is_step
is_done workflow_id rows id = elim (view_at id rows) [
  | none ↦ false
  | some v ↦ is_step workflow_id v && (v.status == completed)
]

-- What the workflow's resume makes of a row.
unfoldable pub resumed_view : String → Table → View → View
unfolding is_stalled is_done requeued_view rearmed_view csv_items
resumed_view workflow_id rows v =
    if not (is_stalled workflow_id v)
    then v
    else if all (is_done workflow_id rows) (csv_items v.depends_on)
    then record v { status = queued; worker = none }
    else record v { status = waiting }

pub get-statuses :
    (workflow_id d : String) (rows : Table) (status : Dict String TaskState)
    → Dicts.HasDistinctKeys rows
    → Dicts.get d (statuses (steps_of workflow_id rows) status) ≡ (elim (view_at d rows) [
      | none ↦ Dicts.get d status
      | some v ↦ if is_step workflow_id v then some v.status else Dicts.get d status
    ])
unfolding statuses steps_of view_at is_step Dicts.get
get-statuses workflow_id d [] status h = refl
get-statuses workflow_id d ((id, task) ∷ rows) status h =
    let missing = Dicts.get_same id d rows in
    elim (Bool-cases (task.parent_id == workflow_id)) [
      | inl e ↦ rw e (
          ground (
            arith,
            e,
            h.0,
            missing,
            get-statuses workflow_id d rows (Dicts.insert id task.status status) h.1,
            Dicts.get-insert id d task.status status,
          ))
      | inr e ↦ rw e (ground (arith, e, h.0, missing, get-statuses workflow_id d rows status h.1))
    ]

pub is_completed-is_done :
    (workflow_id d : String) (rows : Table)
    → Dicts.HasDistinctKeys rows
    → is_completed (statuses (steps_of workflow_id rows) []) d ≡ is_done workflow_id rows d
unfolding is_completed is_done Dicts.get
is_completed-is_done workflow_id d rows h = ground (arith, get-statuses workflow_id d rows [] h)

pub all_same :
    (f g : String → Bool) (xs : List String) → ((x : String) → f x ≡ g x) → all f xs ≡ all g xs
all_same f g [] h = refl
all_same f g (x ∷ xs) h = ground (arith, h x, all_same f g xs h)

pub contains-place :
    (id j : String) (stalled ready : Bool) (plan : Plan)
    → (contains (place id stalled ready plan).requeue j
        ≡ ((stalled && ready && (j == id)) || contains plan.requeue j))
      × (contains (place id stalled ready plan).rearm j
          ≡ ((stalled && not ready && (j == id)) || contains plan.rearm j))
unfolding place
contains-place id j stalled ready plan = ground arith

-- The two lists of a plan, by the rows of the table.
abbrev pub listed : (View → Bool) → Option View → Bool
listed test none = false
listed test (some v) = test v

unfoldable pub to_requeue : Dict String TaskState → String → View → Bool
to_requeue status workflow_id v =
    is_stalled workflow_id v && all (is_completed status) (csv_items v.depends_on)

unfoldable pub to_rearm : Dict String TaskState → String → View → Bool
to_rearm status workflow_id v =
    is_stalled workflow_id v && not (all (is_completed status) (csv_items v.depends_on))

pub view_at-cons :
    (id j : String) (task : Task) (rows : Table)
    → view_at j ((id, task) ∷ rows) ≡ (if id == j then some (view task) else view_at j rows)
unfolding view_at Dicts.get
view_at-cons id j task rows = ground arith

pub view_at-missing :
    (id j : String) (rows : Table)
    → Dicts.get id rows ≡ none
    → (id == j) ≡ true
    → view_at j rows ≡ none
unfolding view_at
view_at-missing id j rows h e = ground (arith, Dicts.get_same id j rows e)

pub to_lists :
    (status : Dict String TaskState) (workflow_id : String) (task : Task)
    → (to_requeue status workflow_id (view task) ≡ (
        (task.parent_id == workflow_id)
        && (contains failed_states task.status
            && all (is_completed status) (csv_items task.depends_on))))
      × (to_rearm status workflow_id (view task) ≡ (
          (task.parent_id == workflow_id)
          && (contains failed_states task.status
              && not (all (is_completed status) (csv_items task.depends_on)))))
unfolding to_requeue to_rearm is_stalled is_step
to_lists status workflow_id task = ground arith

pub plan_each_none :
    (j : String) (status : Dict String TaskState) (workflow_id : String)
    → (contains (plan_each status (steps_of workflow_id [])).requeue j
        ≡ listed (to_requeue status workflow_id) (view_at j []))
      × (contains (plan_each status (steps_of workflow_id [])).rearm j
          ≡ listed (to_rearm status workflow_id) (view_at j []))
unfolding view_at Dicts.get plan_each steps_of
plan_each_none j status workflow_id = (refl, refl)

pub steps_of-cons :
    (workflow_id id : String) (task : Task) (rows : Table) (status : Dict String TaskState)
    → plan_each status (steps_of workflow_id ((id, task) ∷ rows)) ≡ (
        if task.parent_id == workflow_id
        then place id
            (contains failed_states task.status)
            (all (is_completed status) (csv_items task.depends_on))
            (plan_each status (steps_of workflow_id rows))
        else plan_each status (steps_of workflow_id rows))
unfolding steps_of plan_each
steps_of-cons workflow_id id task rows status = elim (Bool-cases (task.parent_id == workflow_id)) [
  | inl e ↦ rw e refl
  | inr e ↦ rw e refl
]

pub plan_each_more :
    (workflow_id id j : String) (status : Dict String TaskState) (task : Task) (rows : Table)
    → Dicts.get id rows ≡ none
    → (contains (plan_each status (steps_of workflow_id rows)).requeue j
        ≡ listed (to_requeue status workflow_id) (view_at j rows))
      × (contains (plan_each status (steps_of workflow_id rows)).rearm j
          ≡ listed (to_rearm status workflow_id) (view_at j rows))
    → (contains (plan_each status (steps_of workflow_id ((id, task) ∷ rows))).requeue j
        ≡ listed (to_requeue status workflow_id) (view_at j ((id, task) ∷ rows)))
      × (contains (plan_each status (steps_of workflow_id ((id, task) ∷ rows))).rearm j
          ≡ listed (to_rearm status workflow_id) (view_at j ((id, task) ∷ rows)))
plan_each_more workflow_id id j status task rows missing rest = ground (
  arith,
  rest,
  steps_of-cons workflow_id id task rows status,
  to_lists status workflow_id task,
  view_at-cons id j task rows,
  view_at-missing id j rows missing,
  beq_comm id j,
  contains-place id j (contains failed_states task.status)
      (all (is_completed status) (csv_items task.depends_on))
      (plan_each status (steps_of workflow_id rows)),
)

pub plan_each_lists :
    (workflow_id j : String) (status : Dict String TaskState) (rows : Table)
    → Dicts.HasDistinctKeys rows
    → (contains (plan_each status (steps_of workflow_id rows)).requeue j
        ≡ listed (to_requeue status workflow_id) (view_at j rows))
      × (contains (plan_each status (steps_of workflow_id rows)).rearm j
          ≡ listed (to_rearm status workflow_id) (view_at j rows))
plan_each_lists workflow_id j status [] h = plan_each_none j status workflow_id
plan_each_lists workflow_id j status ((id, task) ∷ rows) h =
    plan_each_more workflow_id id j status task rows h.0
      (plan_each_lists workflow_id j status rows h.1)
