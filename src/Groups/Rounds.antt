-- ===== src/Groups/Rounds.antt =====
-- Rounds of the delivery of decisions.
use mathlib.Core.Path.{subst}
use nexus_grid_grid.Prelude.Dicts
use nexus_grid_grid.Prelude.Dicts.{HasDistinctKeys, insert-HasDistinctKeys}
use nexus_grid_grid.Prelude.{
  ◌≡◌, sym, ◌∙◌, ◌≤◌, true, false, inl, inr, List, [], ◌∷◌, String, All, select, ◌==◌, text_key,
  Bool-cases, eq_of_beq, arith,
}
use nexus_grid_grid.Groups.{GroupPendingJoinRequest}
use nexus_grid_grid.Groups.Delivery.{
  group_decision_max_attempts, DecisionWorld, Rows, Desk, attempts_of, deliver_row, deliver_rows,
  is_undelivered, delivery_round,
}
use nexus_grid_grid.Groups.Attempts.{
  posts_of, deliver_row-KeepsId, Counted, Counted-KeepsId, deliver_row-Counted, Answers,
}
use nexus_grid_grid.Groups.Round.{
  deliver_rows-KeepsId, deliver_rows_step, delivery_round_commits, select-HasDistinctKeys,
  get-select_done, delivery_round-HasDistinctKeys,
}

-- The desk after the rounds of a list.
unfoldable pub delivery_rounds : List DecisionWorld → Desk → Desk
unfolding delivery_round
delivery_rounds [] d = d
delivery_rounds (w ∷ ws) d = delivery_rounds ws (delivery_round w d).0

deliver_row-Counted_same :
    (w : DecisionWorld) (k id : String) (row : GroupPendingJoinRequest) (d : Desk)
    → Answers w
    → (id == k) ≡ true
    → (w.now_iso == "") ≡ false
    → posts_of k d.posted ≤ group_decision_max_attempts
    → posts_of k d.posted ≤ attempts_of k d.attempts
    → Counted k (deliver_row w id row d).0
deliver_row-Counted_same w k id row d answers same stamped few counted =
    rw (eq_of_beq id k same) (deliver_row-Counted w k row d answers stamped few counted)

deliver_rows-Counted :
    (w : DecisionWorld) (k : String) (rows : Rows) (d : Desk)
    → Answers w
    → (w.now_iso == "") ≡ false
    → HasDistinctKeys rows
    → posts_of k d.posted ≤ group_decision_max_attempts
    → posts_of k d.posted ≤ attempts_of k d.attempts
    → Counted k (deliver_rows w rows d).0
unfolding deliver_rows
deliver_rows-Counted w k [] d answers stamped distinct few counted = record {
  at_most = few;
  counted_or_done = inl counted;
}
deliver_rows-Counted w k ((id, row) ∷ rows) d answers stamped distinct few counted =
    let one = (deliver_row w id row d).0 in
    subst (Counted k) (sym (deliver_rows_step w id row rows d answers))
      (elim (Bool-cases (id == k)) [
        | inl same ↦
            Counted-KeepsId k one (deliver_rows w rows one).0
              (deliver_rows-KeepsId w k rows one (sym (Dicts.get_same id k rows same) ∙ distinct.0))
              (deliver_row-Counted_same w k id row d answers same stamped few counted)
        | inr other ↦
            let keeps = deliver_row-KeepsId w k id row d other in
            deliver_rows-Counted w k rows one answers stamped distinct.1
              (omega (arith, few, keeps.same_posts))
              (omega (arith, counted, keeps.same_posts, keeps.same_attempts))
      ])

delivery_round-Counted :
    (w : DecisionWorld) (k : String) (d : Desk)
    → Answers w
    → (w.now_iso == "") ≡ false
    → HasDistinctKeys d.rows
    → Counted k d
    → Counted k (delivery_round w d).0
delivery_round-Counted w k d answers stamped distinct h =
    let rows = select (λ e. is_undelivered e.1) d.rows in
    subst (Counted k) (sym (delivery_round_commits w d answers)) (elim h.counted_or_done [
      | inl counted ↦
          deliver_rows-Counted w k rows d answers stamped
            (select-HasDistinctKeys (λ e. is_undelivered e.1) d.rows distinct) h.at_most counted
      | inr done ↦
          Counted-KeepsId k d (deliver_rows w rows d).0
            (deliver_rows-KeepsId w k rows d (get-select_done k d.rows distinct done)) h
    ])

-- Every clock gives a time stamp that is not blank.
abbrev pub AllStamped : List DecisionWorld → Type 0
AllStamped ws = All (λ w. (w.now_iso == "") ≡ false) ws

abbrev pub AllAnswer : List DecisionWorld → Type 0
AllAnswer ws = All Answers ws

delivery_rounds-Counted :
    (ws : List DecisionWorld) (k : String) (d : Desk)
    → AllAnswer ws
    → AllStamped ws
    → HasDistinctKeys d.rows
    → Counted k d
    → Counted k (delivery_rounds ws d)
unfolding delivery_rounds
delivery_rounds-Counted [] k d answers stamped distinct h = h
delivery_rounds-Counted (w ∷ ws) k d answers stamped distinct h =
    delivery_rounds-Counted ws k (delivery_round w d).0 answers.1 stamped.1
      (delivery_round-HasDistinctKeys w d distinct)
      (delivery_round-Counted w k d answers.0 stamped.0 distinct h)

-- In a process that has just started, with whatever rows, each row under its own id, a decision is
-- posted at most five times, however many rounds follow and whatever the posts answer, when none of
-- them raises and no clock gives a blank time stamp.
pub delivery_rounds-posts :
    (ws : List DecisionWorld) (k : String) (rows : Rows)
    → AllAnswer ws
    → AllStamped ws
    → HasDistinctKeys rows
    → posts_of k (delivery_rounds ws (record { rows = rows; attempts = []; posted = [] })).posted
      ≤ group_decision_max_attempts
delivery_rounds-posts ws k rows answers stamped distinct =
    (delivery_rounds-Counted ws k (record { rows = rows; attempts = []; posted = [] }) answers
      stamped distinct
      (record { at_most = omega arith; counted_or_done = inl (omega arith) })).at_most
