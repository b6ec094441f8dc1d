-- ===== src/Tasks/State/Graph.antt =====
-- What the graph of legal transitions allows over whole histories of a task.
use nexus_grid_grid.Prelude.{
  true, false, ◌≡◌, ◌≢◌, refl, ◌⊎◌, inl, inr, List, [], ◌∷◌, ◌++◌, contains, contains-append_left,
  contains-snoc, length, ◌≤◌, arith, beq_refl,
}
use nexus_grid_grid.Tasks.State.{
  TaskState, waiting, awaiting_approval, queued, processing, serving, preempted, disrupted,
  cancelled, retrying, completed, failed, lease_expired, can_move, state_key,
}

-- A run of legal transitions from `s`, with the states that it visits, in order.
pub data Run (s : TaskState) : List TaskState → TaskState → Type 0 where
  start : Run s (s ∷ []) s
  move :
      {visited : List TaskState} {old target : TaskState}
      → Run s visited old
      → can_move old target ≡ true
      → Run s (visited ++ target ∷ []) target

visits_current :
    {s t : TaskState} {visited : List TaskState} → Run s visited t → contains visited t ≡ true
visits_current {s} start = ground (arith, beq_refl s)
visits_current (move {visited = v} {target = t} r legal) = contains-snoc v t

into_processing : (old : TaskState) → can_move old processing ≡ true → old ≡ queued
unfolding can_move
into_processing old h = ground arith

into_serving : (old : TaskState) → can_move old serving ≡ true → old ≡ processing
unfolding can_move
into_serving old h = ground arith

into_completed :
    (old : TaskState) → can_move old completed ≡ true → (old ≡ processing) ⊎ (old ≡ serving)
unfolding can_move
into_completed old h = ground arith

out_of_cancelled : (t : TaskState) → can_move cancelled t ≡ false
unfolding can_move
out_of_cancelled t = ground arith

-- A cancelled task stays cancelled: no run of legal transitions leaves that state.
pub Run-cancelled :
    {s t : TaskState} {visited : List TaskState} → Run s visited t → s ≡ cancelled → t ≡ cancelled
Run-cancelled start e = e
Run-cancelled (move {target = t} r legal) e =
    let earlier = Run-cancelled r e in ground (arith, out_of_cancelled t)

serving_after_processing :
    {s t : TaskState} {visited : List TaskState}
    → Run s visited t
    → t ≡ serving
    → s ≢ serving
    → contains visited processing ≡ true
serving_after_processing start e n = absurd (n e)
serving_after_processing (move {visited = v} {old = o} {target = t} r legal) e n =
    contains-append_left v (t ∷ []) processing
      (let before : o ≡ processing = into_processing_of e legal in rw before at (visits_current r))
  where
    into_processing_of : t ≡ serving → can_move o t ≡ true → o ≡ processing
    into_processing_of p q = into_serving o (rw p at q)

processing_after_queued :
    {s t : TaskState} {visited : List TaskState}
    → Run s visited t
    → t ≡ processing
    → s ≢ processing
    → contains visited queued ≡ true
processing_after_queued start e n = absurd (n e)
processing_after_queued (move {visited = v} {old = o} {target = t} r legal) e n =
    contains-append_left v (t ∷ []) queued (
      let before : o ≡ queued = into_processing o (rw e at legal) in
      rw before at (visits_current r))

-- A task that starts in a state other than `processing`, `serving` and `completed`, and that legal
-- transitions bring to `completed`, has been in `processing` on the way.
pub Run-completed :
    {s t : TaskState} {visited : List TaskState}
    → Run s visited t
    → t ≡ completed
    → s ≢ processing
    → s ≢ serving
    → s ≢ completed
    → contains visited processing ≡ true
Run-completed start e p q c = absurd (c e)
Run-completed (move {visited = v} {old = o} {target = t} r legal) e p q c =
    contains-append_left v (t ∷ []) processing (elim (into_completed o (rw e at legal)) [
      | inl before ↦ rw before at (visits_current r)
      | inr before ↦ serving_after_processing r before q
    ])

-- From every state but `cancelled` legal transitions lead back to `queued`, visiting at most three
-- states on the way.
pub Run-queued :
    (s : TaskState)
    → s ≢ cancelled
    → (visited : List TaskState) × Run s visited queued × (length visited ≤ 3)
unfolding can_move
Run-queued waiting n = (_, move start refl, omega arith)
Run-queued awaiting_approval n = (_, move start refl, omega arith)
Run-queued queued n = (_, start, omega arith)
Run-queued processing n = (_, move {old = failed} (move start refl) refl, omega arith)
Run-queued serving n = (_, move {old = failed} (move start refl) refl, omega arith)
Run-queued preempted n = (_, move start refl, omega arith)
Run-queued disrupted n = (_, move start refl, omega arith)
Run-queued cancelled n = absurd (n refl)
Run-queued retrying n = (_, move start refl, omega arith)
Run-queued completed n = (_, move start refl, omega arith)
Run-queued failed n = (_, move start refl, omega arith)
Run-queued lease_expired n = (_, move start refl, omega arith)
