-- ===== src/Tasks/Lifecycle/Ran.antt =====
-- What a task has been through when it is completed.
use nexus_grid_grid.Prelude.{
  true, ◌≡◌, ◌≢◌, refl, sym, ap, List, [], ◌∷◌, ◌++◌, map, contains, ◌==◌, eq_of_beq, Bool-cases,
  inl, inr,
}
use nexus_grid_grid.Tasks.State.{TaskState, processing, serving, completed, state_key}
use nexus_grid_grid.Tasks.State.Graph.{Run, start, move, Run-completed}
use nexus_grid_grid.Tasks.Env.{Task, LogLine}
use nexus_grid_grid.Tasks.Node.{Node}
use nexus_grid_grid.Tasks.Lifecycle.History.{
  Trail, here, then_to, Request, request_all, request_all-Recorded,
}

-- The states that the lines of a log enter, in order.
abbrev pub entered : List LogLine → List TaskState
entered lines = map (λ line. line.target) lines

entered-append :
    (lines : List LogLine) (line : LogLine)
    → entered (lines ++ line ∷ []) ≡ entered lines ++ line.target ∷ []
entered-append [] line = refl
entered-append (l ∷ lines) line = ap (λ states. l.target ∷ states) (entered-append lines line)

Trail-Run : {s t : TaskState} {lines : List LogLine} → Trail s lines t → Run s (s ∷ entered lines) t
Trail-Run here = start
Trail-Run {s} (then_to {lines = lines} {old = old} {target = target} at reason trail legal n) =
    rw (entered-append lines (record { at = at; old = old; target = target; reason = reason }))
      (move (Trail-Run trail) legal)

elsewhere :
    (s : TaskState) (states : List TaskState)
    → contains (s ∷ states) processing ≡ true
    → s ≢ processing
    → contains states processing ≡ true
elsewhere s states h n = elim (Bool-cases (processing == s)) [
  | inl e ↦ absurd (n (sym (eq_of_beq processing s e)))
  | inr e ↦ rw e at h
]

-- A task that unforced requests have brought to `completed`, from a state other than `processing`,
-- `serving` and `completed`, has run: one of the lines that they added to its log enters `processing`.
pub request_all_completed :
    (rs : List Request) (task : Task) (node : Node)
    → task.status ≢ processing
    → task.status ≢ serving
    → task.status ≢ completed
    → (request_all rs task node).0.status ≡ completed
    → (lines : List LogLine) × ((request_all rs task node).0.logs ≡ task.logs ++ lines)
      × (contains (entered lines) processing ≡ true)
request_all_completed rs task node p q c e =
    let h = (request_all-Recorded rs task node).1 in
    (
      h.lines,
      h.logs,
      elsewhere task.status (entered h.lines) (Run-completed (Trail-Run h.trail) e p q c) p,
    )
