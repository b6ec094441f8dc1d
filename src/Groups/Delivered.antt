-- ===== src/Groups/Delivered.antt =====
-- When a decision arrives.
use mathlib.Core.Bool.{false≢true}
use nexus_grid_grid.Prelude.Dicts
use nexus_grid_grid.Prelude.Dicts.{HasDistinctKeys}
use nexus_grid_grid.Prelude.{
  ◌≡◌, refl, sym, ap, ◌∙◌, ℕ, ◌<◌, Bool, true, false, Option, none, inl, inr, [], ◌∷◌, some, String,
  select, leb, ◌==◌, text_key, Bool-cases, eq_of_beq, some_injective, arith,
}
use nexus_grid_grid.Groups.{GroupPendingJoinRequest}
use nexus_grid_grid.Groups.Delivery.{
  group_decision_max_attempts, DecisionBody, DecisionWorld, Rows, Desk, attempts_of,
  attempt_deliver_one, after_post, deliver_row, deliver_rows, is_undelivered, is_reachable,
  is_success, delivery_round, after_answer, body_for, post_count,
}
use nexus_grid_grid.Groups.Attempts.{deliver_row-KeepsId, Answers}
use nexus_grid_grid.Groups.Round.{
  deliver_rows-KeepsId, select-HasDistinctKeys, deliver_rows_step, delivery_round_commits,
}

abbrev pub stamped_row : DecisionWorld → GroupPendingJoinRequest → GroupPendingJoinRequest
stamped_row w row = record row { delivered_at = w.now_iso }

abbrev pub is_taken : Option ℕ → Bool
is_taken none = false
is_taken (some status) = is_success status

-- The joiner takes whatever is posted about the row.
abbrev pub Takes : DecisionWorld → GroupPendingJoinRequest → Type 0
Takes w row = (n : ℕ) (body : DecisionBody) → is_taken (w.post n row body) ≡ true

after_answer-arrives :
    (w : DecisionWorld) (k : String) (row : GroupPendingJoinRequest) (answer : Option ℕ) (d : Desk)
    → is_taken answer ≡ true
    → Dicts.get k (after_answer w k row answer d).0.rows ≡ some (stamped_row w row)
unfolding after_answer after_post
after_answer-arrives w k row none d taken = absurd (false≢true taken)
after_answer-arrives w k row (some status) d taken =
    rw taken (Dicts.get-insert_self k (stamped_row w row) d.rows)

leb_few : (k : ℕ) → k < group_decision_max_attempts → leb group_decision_max_attempts k ≡ false
leb_few k h = ground (arith, h)

deliver_row-arrives :
    (w : DecisionWorld) (k : String) (row : GroupPendingJoinRequest) (d : Desk)
    → w.in_window row.created_at ≡ true
    → is_reachable row ≡ true
    → Takes w row
    → attempts_of k d.attempts < group_decision_max_attempts
    → Dicts.get k (deliver_row w k row d).0.rows ≡ some (stamped_row w row)
unfolding deliver_row attempt_deliver_one
deliver_row-arrives w k row d in_time near takes few =
    rw (leb_few (attempts_of k d.attempts) few, in_time, near)
      (after_answer-arrives w k row (w.post (post_count d.posted) row (body_for w k row))
        (record d { posted = body_for w k row ∷ d.posted }) (takes _ _))

deliver_row-arrives_same :
    (w : DecisionWorld) (k id : String) (first row : GroupPendingJoinRequest) (d : Desk)
    → (id == k) ≡ true
    → first ≡ row
    → w.in_window row.created_at ≡ true
    → is_reachable row ≡ true
    → Takes w row
    → attempts_of k d.attempts < group_decision_max_attempts
    → Dicts.get k (deliver_row w id first d).0.rows ≡ some (stamped_row w row)
deliver_row-arrives_same w k id first row d same it in_time near takes few =
    ap (λ r. Dicts.get k (deliver_row w id r d).0.rows) it
    ∙ ap (λ i. Dicts.get k (deliver_row w i row d).0.rows) (eq_of_beq id k same)
    ∙ deliver_row-arrives w k row d in_time near takes few

deliver_rows-arrives :
    (w : DecisionWorld) (k : String) (rows : Rows) (row : GroupPendingJoinRequest) (d : Desk)
    → Answers w
    → HasDistinctKeys rows
    → Dicts.get k rows ≡ some row
    → w.in_window row.created_at ≡ true
    → is_reachable row ≡ true
    → Takes w row
    → attempts_of k d.attempts < group_decision_max_attempts
    → Dicts.get k (deliver_rows w rows d).0.rows ≡ some (stamped_row w row)
unfolding deliver_rows Dicts.get
deliver_rows-arrives w k [] row d answers distinct at in_time near takes few = ground (arith, at)
deliver_rows-arrives w k ((id, first) ∷ rows) row d answers distinct at in_time near takes few =
    let one = (deliver_row w id first d).0 in
    ap (λ e. Dicts.get k e.rows) (deliver_rows_step w id first rows d answers)
    ∙ elim (Bool-cases (id == k)) [
      | inl same ↦
          let it = some_injective first row (sym (rw same refl) ∙ at) in
          (deliver_rows-KeepsId w k rows one
            (sym (Dicts.get_same id k rows same) ∙ distinct.0)).same_row
          ∙ deliver_row-arrives_same w k id first row d same it in_time near takes few
      | inr other ↦
          deliver_rows-arrives w k rows row one answers distinct.1 (sym (rw other refl) ∙ at)
            in_time near takes (rw (deliver_row-KeepsId w k id first d other).same_attempts few)
    ]

get-select_kept :
    (k : String) (row : GroupPendingJoinRequest) (m : Rows)
    → Dicts.get k m ≡ some row
    → is_undelivered row ≡ true
    → Dicts.get k (select (λ e. is_undelivered e.1) m) ≡ some row
unfolding Dicts.get
get-select_kept k row [] at open_row = at
get-select_kept k row ((j, v) ∷ m) at open_row = elim (Bool-cases (j == k)) [
  | inl same ↦
      let it = some_injective v row (sym (rw same refl) ∙ at) in
      rw (ap is_undelivered it ∙ open_row, same) (ap some it)
  | inr other ↦
      let rest = get-select_kept k row m (sym (rw other refl) ∙ at) open_row in
      elim (Bool-cases (is_undelivered v)) [ inl e ↦ rw (e, other) rest | inr e ↦ rw e rest ]
]

-- A round stamps a decision as delivered when the request is within the window, the joiner left an
-- address or a node id and takes what is posted, and fewer than five attempts are counted, whatever
-- the posts about the other requests answer, when none of the round raises and each row has its own
-- id.
pub delivery_round-arrives :
    (w : DecisionWorld) (k : String) (row : GroupPendingJoinRequest) (d : Desk)
    → Answers w
    → HasDistinctKeys d.rows
    → Dicts.get k d.rows ≡ some row
    → is_undelivered row ≡ true
    → w.in_window row.created_at ≡ true
    → is_reachable row ≡ true
    → Takes w row
    → attempts_of k d.attempts < group_decision_max_attempts
    → Dicts.get k (delivery_round w d).0.rows ≡ some (stamped_row w row)
delivery_round-arrives w k row d answers distinct at open_row in_time near takes few =
    ap (λ e. Dicts.get k e.rows) (delivery_round_commits w d answers)
    ∙ deliver_rows-arrives w k (select (λ e. is_undelivered e.1) d.rows) row d answers
        (select-HasDistinctKeys (λ e. is_undelivered e.1) d.rows distinct)
        (get-select_kept k row d.rows at open_row) in_time near takes few
