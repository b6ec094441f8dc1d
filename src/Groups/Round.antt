-- ===== src/Groups/Round.antt =====
-- One round of the delivery of decisions.
use mathlib.Core.Option
use nexus_grid_grid.Prelude.Dicts
use nexus_grid_grid.Prelude.Dicts.{HasDistinctKeys, insert-HasDistinctKeys}
use nexus_grid_grid.Prelude.{
  ◌≡◌, refl, sym, ap, ◌∙◌, ℕ, suc, ◌≢◌, Option, if◌then◌else◌, Option-cases, Bool, true, false, not,
  ◌||◌, inl, inr, [], ◌∷◌, none, some, String, select, leb, ◌==◌, text_key, Bool-cases, arith,
}
use nexus_grid_grid.Groups.{GroupPendingJoinRequest}
use nexus_grid_grid.Groups.Delivery.{
  group_decision_max_attempts, DecisionWorld, Rows, Desk, attempts_of, attempt_deliver_one,
  after_post, deliver_row, deliver_rows, is_undelivered, is_reachable, delivery_round, after_answer,
  after_row, close_session, is_success, body_for, post_count,
}
use nexus_grid_grid.Groups.Attempts.{
  KeepsId, KeepsId-refl, KeepsId-trans, deliver_row-KeepsId, Answers,
}

pub deliver_rows-KeepsId :
    (w : DecisionWorld) (k : String) (rows : Rows) (d : Desk)
    → Dicts.get k rows ≡ none
    → KeepsId k d (deliver_rows w rows d).0
unfolding deliver_rows Dicts.get
deliver_rows-KeepsId w k [] d absent = KeepsId-refl k d
deliver_rows-KeepsId w k ((id, row) ∷ rows) d absent =
    let one = (deliver_row w id row d).0 in
    let first = deliver_row-KeepsId w k id row d (ground (arith, absent)) in
    elim (Option-cases (deliver_row w id row d).1) [
      | inl raised ↦ rw (raised, after_row) first
      | inr (ok, went_on) ↦
          rw (went_on, after_row)
            (KeepsId-trans k d one (deliver_rows w rows one).0 first
              (deliver_rows-KeepsId w k rows one (ground (arith, absent))))
    ]

pub delivery_round-KeepsId :
    (w : DecisionWorld) (k : String) (d : Desk)
    → Dicts.get k (select (λ e. is_undelivered e.1) d.rows) ≡ none
    → KeepsId k d (delivery_round w d).0
unfolding delivery_round
delivery_round-KeepsId w k d absent =
    let rows = select (λ e. is_undelivered e.1) d.rows in
    let keeps = deliver_rows-KeepsId w k rows d absent in
    elim (Option-cases (deliver_rows w rows d).1) [
      | inl raised ↦
          rw (raised, close_session)
            (record {
              same_posts = keeps.same_posts;
              same_attempts = keeps.same_attempts;
              same_row = refl;
            })
      | inr (n, ended) ↦ rw (ended, close_session) keeps
    ]

-- Where no post raises, the loop runs to its end, and what it did is committed.
after_answer-goes_on :
    (w : DecisionWorld) (id : String) (row : GroupPendingJoinRequest) (answer : Option ℕ) (d : Desk)
    → answer ≢ none
    → (ok : Bool) × ((after_answer w id row answer d).1 ≡ some ok)
unfolding after_answer
after_answer-goes_on w id row none d answered = absurd (answered refl)
after_answer-goes_on w id row (some status) d answered = (_, refl)

deliver_row-goes_on :
    (w : DecisionWorld) (id : String) (row : GroupPendingJoinRequest) (d : Desk)
    → Answers w
    → (ok : Bool) × ((deliver_row w id row d).1 ≡ some ok)
unfolding deliver_row attempt_deliver_one
deliver_row-goes_on w id row d answers =
    elim (Bool-cases (
      leb group_decision_max_attempts (attempts_of id d.attempts)
      || not (w.in_window row.created_at))) [
        | inl e ↦ rw e (_, refl)
        | inr e ↦ rw e (elim (Bool-cases (is_reachable row)) [
          | inr far ↦ rw far (_, refl)
          | inl near ↦ rw near (
              after_answer-goes_on w id row (w.post (post_count d.posted) row (body_for w id row))
                (record d { posted = body_for w id row ∷ d.posted }) (answers _ _ _))
        ])
      ]

pub deliver_rows_step :
    (w : DecisionWorld) (id : String) (row : GroupPendingJoinRequest) (rows : Rows) (d : Desk)
    → Answers w
    → (deliver_rows w ((id, row) ∷ rows) d).0 ≡ (deliver_rows w rows (deliver_row w id row d).0).0
unfolding deliver_rows
deliver_rows_step w id row rows d answers =
    let (ok, went_on) = deliver_row-goes_on w id row d answers in rw (went_on, after_row) refl

deliver_rows-goes_on :
    (w : DecisionWorld) (rows : Rows) (d : Desk)
    → Answers w
    → (n : ℕ) × ((deliver_rows w rows d).1 ≡ some n)
unfolding deliver_rows
deliver_rows-goes_on w [] d answers = (0, refl)
deliver_rows-goes_on w ((id, row) ∷ rows) d answers =
    let (ok, went_on) = deliver_row-goes_on w id row d answers in
    let (n, ended) = deliver_rows-goes_on w rows (deliver_row w id row d).0 answers in
    (
      if ok then suc n else n,
      rw (went_on, after_row) (ap (Option.map (λ k. if ok then suc k else k)) ended),
    )

pub delivery_round_commits :
    (w : DecisionWorld) (d : Desk)
    → Answers w
    → (delivery_round w d).0 ≡ (deliver_rows w (select (λ e. is_undelivered e.1) d.rows) d).0
unfolding delivery_round
delivery_round_commits w d answers =
    let (n, ended) = deliver_rows-goes_on w (select (λ e. is_undelivered e.1) d.rows) d answers in
    rw (ended, close_session) refl

get-select :
    (keep : String × GroupPendingJoinRequest → Bool) (k : String) (m : Rows)
    → HasDistinctKeys m
    → Dicts.get k m ≡ none
    → Dicts.get k (select keep m) ≡ none
unfolding Dicts.get
get-select keep k [] distinct absent = refl
get-select keep k ((j, v) ∷ m) distinct absent =
    ground (arith, absent, get-select keep k m distinct.1)

pub select-HasDistinctKeys :
    (keep : String × GroupPendingJoinRequest → Bool) (m : Rows)
    → HasDistinctKeys m
    → HasDistinctKeys (select keep m)
select-HasDistinctKeys keep [] distinct = tt
select-HasDistinctKeys keep ((j, v) ∷ m) distinct = elim (Bool-cases (keep (j, v))) [
  | inl e ↦
      rw e (get-select keep j m distinct.1 distinct.0, select-HasDistinctKeys keep m distinct.1)
  | inr e ↦ rw e (select-HasDistinctKeys keep m distinct.1)
]

-- A row that the query leaves out is not in the loop.
pub get-select_done :
    (k : String) (m : Rows)
    → HasDistinctKeys m
    → ((row : GroupPendingJoinRequest) → Dicts.get k m ≡ some row → is_undelivered row ≡ false)
    → Dicts.get k (select (λ e. is_undelivered e.1) m) ≡ none
unfolding Dicts.get
get-select_done k [] distinct done = refl
get-select_done k ((j, v) ∷ m) distinct done = elim (Bool-cases (j == k)) [
  | inl same ↦
      let gone = done v (rw same refl) in
      rw gone (
        get-select (λ e. is_undelivered e.1) k m distinct.1
          (sym (Dicts.get_same j k m same) ∙ distinct.0))
  | inr other ↦ elim (Bool-cases (is_undelivered v)) [
    | inl e ↦ rw (e, other) (get-select_done k m distinct.1 (λ row at. done row (rw other at)))
    | inr e ↦ rw e (get-select_done k m distinct.1 (λ row at. done row (rw other at)))
  ]
]

after_post-HasDistinctKeys :
    (w : DecisionWorld) (id : String) (row : GroupPendingJoinRequest) (took : Bool) (d : Desk)
    → HasDistinctKeys d.rows
    → HasDistinctKeys (after_post w id row took d).0.rows
unfolding after_post
after_post-HasDistinctKeys w id row true d distinct =
    insert-HasDistinctKeys id (record row { delivered_at = w.now_iso }) d.rows distinct
after_post-HasDistinctKeys w id row false d distinct = distinct

after_answer-HasDistinctKeys :
    (w : DecisionWorld) (id : String) (row : GroupPendingJoinRequest) (answer : Option ℕ) (d : Desk)
    → HasDistinctKeys d.rows
    → HasDistinctKeys (after_answer w id row answer d).0.rows
unfolding after_answer
after_answer-HasDistinctKeys w id row none d distinct = distinct
after_answer-HasDistinctKeys w id row (some status) d distinct =
    after_post-HasDistinctKeys w id row (is_success status) d distinct

deliver_row-HasDistinctKeys :
    (w : DecisionWorld) (id : String) (row : GroupPendingJoinRequest) (d : Desk)
    → HasDistinctKeys d.rows
    → HasDistinctKeys (deliver_row w id row d).0.rows
unfolding deliver_row attempt_deliver_one
deliver_row-HasDistinctKeys w id row d distinct =
    elim (Bool-cases (
      leb group_decision_max_attempts (attempts_of id d.attempts)
      || not (w.in_window row.created_at))) [
        | inl e ↦ rw e distinct
        | inr e ↦ rw e (elim (Bool-cases (is_reachable row)) [
          | inr far ↦ rw far distinct
          | inl near ↦ rw near (
              after_answer-HasDistinctKeys w id row
                (w.post (post_count d.posted) row (body_for w id row))
                (record d { posted = body_for w id row ∷ d.posted }) distinct)
        ])
      ]

deliver_rows-HasDistinctKeys :
    (w : DecisionWorld) (rows : Rows) (d : Desk)
    → HasDistinctKeys d.rows
    → HasDistinctKeys (deliver_rows w rows d).0.rows
unfolding deliver_rows
deliver_rows-HasDistinctKeys w [] d distinct = distinct
deliver_rows-HasDistinctKeys w ((id, row) ∷ rows) d distinct =
    let first = deliver_row-HasDistinctKeys w id row d distinct in
    elim (Option-cases (deliver_row w id row d).1) [
      | inl raised ↦ rw (raised, after_row) first
      | inr (ok, went_on) ↦
          rw (went_on, after_row)
            (deliver_rows-HasDistinctKeys w rows (deliver_row w id row d).0 first)
    ]

pub delivery_round-HasDistinctKeys :
    (w : DecisionWorld) (d : Desk)
    → HasDistinctKeys d.rows
    → HasDistinctKeys (delivery_round w d).0.rows
unfolding delivery_round
delivery_round-HasDistinctKeys w d distinct =
    let rows = select (λ e. is_undelivered e.1) d.rows in
    elim (Option-cases (deliver_rows w rows d).1) [
      | inl raised ↦ rw (raised, close_session) distinct
      | inr (n, ended) ↦ rw (ended, close_session) (deliver_rows-HasDistinctKeys w rows d distinct)
    ]
