-- ===== src/Groups/Attempts.antt =====
-- How often a decision is posted.
use nexus_grid_grid.Prelude.Dicts
use nexus_grid_grid.Prelude.Dicts.{HasDistinctKeys}
use nexus_grid_grid.Prelude.{
  ◌≡◌, refl, sym, ap, ◌∙◌, ℕ, suc, ◌≤◌, ◌<◌, Bool, true, false, not, ◌||◌, ◌⊎◌, inl, inr, List, [],
  ◌∷◌, Option, none, some, ◌≢◌, String, leb, if◌then◌else◌, ◌==◌, text_key, Bool-cases,
  some_injective, beq_refl, arith,
}
use nexus_grid_grid.Groups.{GroupPendingJoinRequest}
use nexus_grid_grid.Groups.Delivery.{
  group_decision_max_attempts, DecisionBody, DecisionWorld, Desk, attempts_of, build_decision_body,
  body_for, post_count, is_reachable, is_success, after_post, after_answer, attempt_deliver_one,
  deliver_row, is_undelivered,
}

-- How many of the posts are about one request.
abbrev pub posts_of : String → List DecisionBody → ℕ
posts_of k [] = 0
posts_of k (b ∷ bodies) =
    let rest = posts_of k bodies in if b.request_id == k then suc rest else rest

-- What concerns one request is as before.
pub record KeepsId (k : String) (d e : Desk) : Type 0 where
  pub same_posts : posts_of k e.posted ≡ posts_of k d.posted
  pub same_attempts : attempts_of k e.attempts ≡ attempts_of k d.attempts
  pub same_row : Dicts.get k e.rows ≡ Dicts.get k d.rows

pub KeepsId-refl : (k : String) (d : Desk) → KeepsId k d d
KeepsId-refl k d = record { same_posts = refl; same_attempts = refl; same_row = refl }

pub KeepsId-trans : (k : String) (c d e : Desk) → KeepsId k c d → KeepsId k d e → KeepsId k c e
KeepsId-trans k c d e one two = record {
  same_posts = two.same_posts ∙ one.same_posts;
  same_attempts = two.same_attempts ∙ one.same_attempts;
  same_row = two.same_row ∙ one.same_row;
}

-- An attempt about another request.
after_post-KeepsId :
    (w : DecisionWorld) (k id : String) (row : GroupPendingJoinRequest) (took : Bool) (d : Desk)
    (body : DecisionBody)
    → (id == k) ≡ false
    → (body.request_id == k) ≡ false
    → KeepsId k d (after_post w id row took (record d { posted = body ∷ d.posted })).0
unfolding after_post attempts_of
after_post-KeepsId w k id row true d body other about = record {
  same_posts = ground (arith, about);
  same_attempts = ground (arith, Dicts.get-erase id k d.attempts, other);
  same_row =
      ground (arith, Dicts.get-insert id k (record row { delivered_at = w.now_iso }) d.rows, other);
}
after_post-KeepsId w k id row false d body other about = record {
  same_posts = ground (arith, about);
  same_attempts =
      ground (arith, Dicts.get-insert id k (suc (attempts_of id d.attempts)) d.attempts, other);
  same_row = refl;
}

after_answer-KeepsId :
    (w : DecisionWorld) (k id : String) (row : GroupPendingJoinRequest) (answer : Option ℕ)
    (d : Desk) (body : DecisionBody)
    → (id == k) ≡ false
    → (body.request_id == k) ≡ false
    → KeepsId k d (after_answer w id row answer (record d { posted = body ∷ d.posted })).0
unfolding after_answer
after_answer-KeepsId w k id row none d body other about = record {
  same_posts = ground (arith, about);
  same_attempts = refl;
  same_row = refl;
}
after_answer-KeepsId w k id row (some status) d body other about =
    after_post-KeepsId w k id row (is_success status) d body other about

pub deliver_row-KeepsId :
    (w : DecisionWorld) (k id : String) (row : GroupPendingJoinRequest) (d : Desk)
    → (id == k) ≡ false
    → KeepsId k d (deliver_row w id row d).0
unfolding deliver_row attempt_deliver_one body_for build_decision_body
deliver_row-KeepsId w k id row d other =
    elim (Bool-cases (
      leb group_decision_max_attempts (attempts_of id d.attempts)
      || not (w.in_window row.created_at))) [
        | inl e ↦ rw e (KeepsId-refl k d)
        | inr e ↦ rw e (elim (Bool-cases (is_reachable row)) [
          | inr far ↦ rw far (KeepsId-refl k d)
          | inl near ↦ rw near (
              after_answer-KeepsId w k id row (w.post (post_count d.posted) row (body_for w id row))
                d (body_for w id row) other other)
        ])
      ]

-- The request was posted at most five times, and either as often as was counted or it is delivered.
pub record Counted (k : String) (d : Desk) : Type 0 where
  pub at_most : posts_of k d.posted ≤ group_decision_max_attempts
  pub counted_or_done :
      (posts_of k d.posted ≤ attempts_of k d.attempts)
      ⊎ ((row : GroupPendingJoinRequest)
          → Dicts.get k d.rows ≡ some row
          → is_undelivered row ≡ false)

pub Counted-KeepsId : (k : String) (d e : Desk) → KeepsId k d e → Counted k d → Counted k e
Counted-KeepsId k d e keeps h = record {
  at_most = omega (arith, h.at_most, keeps.same_posts);
  counted_or_done = elim h.counted_or_done [
    | inl counted ↦ inl (omega (arith, counted, keeps.same_posts, keeps.same_attempts))
    | inr done ↦ inr (λ row at. done row (sym keeps.same_row ∙ at))
  ];
}

after_post-Counted :
    (w : DecisionWorld) (k : String) (row : GroupPendingJoinRequest) (took : Bool) (d : Desk)
    (body : DecisionBody)
    → (w.now_iso == "") ≡ false
    → (body.request_id == k) ≡ true
    → attempts_of k d.attempts < group_decision_max_attempts
    → posts_of k d.posted ≤ attempts_of k d.attempts
    → Counted k (after_post w k row took (record d { posted = body ∷ d.posted })).0
unfolding after_post attempts_of is_undelivered
after_post-Counted w k row true d body stamped about few counted = record {
  at_most = ground (arith, about, few, counted);
  counted_or_done = inr (λ last at. ground (
    arith,
    stamped,
    ap (λ r. r.delivered_at)
        (some_injective (record row { delivered_at = w.now_iso }) last
          (sym (Dicts.get-insert_self k (record row { delivered_at = w.now_iso }) d.rows) ∙ at)),
  ));
}
after_post-Counted w k row false d body stamped about few counted = record {
  at_most = ground (arith, about, few, counted);
  counted_or_done = inl (
      ground (
        arith,
        about,
        counted,
        Dicts.get-insert_self k (suc (attempts_of k d.attempts)) d.attempts,
      ));
}

after_answer-Counted :
    (w : DecisionWorld) (k : String) (row : GroupPendingJoinRequest) (answer : Option ℕ) (d : Desk)
    (body : DecisionBody)
    → (w.now_iso == "") ≡ false
    → answer ≢ none
    → (body.request_id == k) ≡ true
    → attempts_of k d.attempts < group_decision_max_attempts
    → posts_of k d.posted ≤ attempts_of k d.attempts
    → Counted k (after_answer w k row answer (record d { posted = body ∷ d.posted })).0
unfolding after_answer
after_answer-Counted w k row none d body stamped answered about few counted = absurd (answered refl)
after_answer-Counted w k row (some status) d body stamped answered about few counted =
    after_post-Counted w k row (is_success status) d body stamped about few counted

-- No post of the round raises.
abbrev pub Answers : DecisionWorld → Type 0
Answers w = (n : ℕ) (row : GroupPendingJoinRequest) (body : DecisionBody) → w.post n row body ≢ none

pub deliver_row-Counted :
    (w : DecisionWorld) (k : String) (row : GroupPendingJoinRequest) (d : Desk)
    → Answers w
    → (w.now_iso == "") ≡ false
    → posts_of k d.posted ≤ group_decision_max_attempts
    → posts_of k d.posted ≤ attempts_of k d.attempts
    → Counted k (deliver_row w k row d).0
unfolding deliver_row attempt_deliver_one body_for build_decision_body
deliver_row-Counted w k row d answers stamped few counted =
    elim (Bool-cases (
      leb group_decision_max_attempts (attempts_of k d.attempts)
      || not (w.in_window row.created_at))) [
        | inl e ↦ rw e (record { at_most = few; counted_or_done = inl counted })
        | inr e ↦ rw e (elim (Bool-cases (is_reachable row)) [
          | inr far ↦ rw far (record { at_most = few; counted_or_done = inl counted })
          | inl near ↦ rw near (
              after_answer-Counted w k row (w.post (post_count d.posted) row (body_for w k row)) d
                (body_for w k row) stamped (answers _ _ _) (beq_refl k) (ground (arith, e)) counted)
        ])
      ]
