-- ===== src/Groups/Delivery/Tests.antt =====
-- Rounds of the delivery on a joiner that answers at the third post.
use nexus_grid_grid.Prelude.Dicts
use nexus_grid_grid.Prelude.{
  ℕ, none, ◌≢◌, ◌≤◌, ◌≡◌, refl, true, List, [], ◌∷◌, some, ltb, if◌then◌else◌, text_key, arith,
}
use nexus_grid_grid.Groups.{GroupPendingJoinRequest}
use nexus_grid_grid.Groups.Delivery.{
  group_decision_max_attempts, DecisionWorld, Rows, Desk, is_undelivered, is_reachable, is_success,
  attempts_of, delivery_round, deliver_rows, deliver_row, attempt_deliver_one, after_post, body_for,
  build_decision_body, grant_for, with_grant, post_count, after_answer, after_row, close_session,
}
use nexus_grid_grid.Groups.Attempts.{posts_of, Answers}
use nexus_grid_grid.Groups.Rounds.{AllAnswer, delivery_rounds, delivery_rounds-posts}
use nexus_grid_grid.Groups.Delivered.{stamped_row, delivery_round-arrives}
use nexus_grid_grid.Groups.Samples.{waiting_request}

abbrev approved_request : GroupPendingJoinRequest
approved_request = record waiting_request { status = "approved" }

abbrev third_time : DecisionWorld
third_time = record {
  now_iso = "t5";
  node_uuid = "node-a";
  in_window = λ created. true;
  founder_address = "10.0.0.1";
  live_group_meta = λ g. record {
    group_name = "G";
    founder_pubkey = "ann";
    privacy_mode = "private";
    founder_display_name = "Ann";
  };
  live_grant_meta = λ row. record {
    grant_blob_b64 = "grant";
    default_role = "";
    issued_at = "t1";
    expires_at = "t9";
    symkey_envelope_b64 = "sealed";
  };
  post = λ n row body. some (if ltb n 2 then 503 else 200);
}

abbrev all_rows : Rows
all_rows = ("r1", approved_request) ∷ ("r2", waiting_request) ∷ []

abbrev fresh_desk : Desk
fresh_desk = record { rows = all_rows; attempts = []; posted = [] }

abbrev four_rounds : List DecisionWorld
four_rounds = third_time ∷ third_time ∷ third_time ∷ third_time ∷ []

-- Three posts in four rounds.
three_posts : posts_of "r1" (delivery_rounds four_rounds fresh_desk).posted ≡ 3
unfolding delivery_rounds delivery_round deliver_rows deliver_row attempt_deliver_one after_post
    after_answer after_row close_session body_for build_decision_body grant_for with_grant
    post_count is_success is_reachable is_undelivered attempts_of Dicts.get Dicts.insert Dicts.erase
three_posts = refl

told : {k : ℕ} → some k ≢ none
told p = ground arith

third_time-Answers : Answers third_time
third_time-Answers n row body = told

all_answer : AllAnswer four_rounds
all_answer =
    (third_time-Answers, (third_time-Answers, (third_time-Answers, (third_time-Answers, tt))))

delivery_rounds-posts_example :
    posts_of "r1" (delivery_rounds four_rounds fresh_desk).posted ≤ group_decision_max_attempts
unfolding Dicts.get
delivery_rounds-posts_example =
    delivery_rounds-posts four_rounds "r1" all_rows all_answer (refl, (refl, (refl, (refl, tt))))
      (refl, (refl, tt))

-- A joiner that always answers.
abbrev at_once : DecisionWorld
at_once = record third_time { post = λ n row body. some 200 }

delivery_round-arrives_example :
    Dicts.get "r1" (delivery_round at_once fresh_desk).0.rows
    ≡ some (stamped_row at_once approved_request)
unfolding Dicts.get is_undelivered is_reachable is_success attempts_of
delivery_round-arrives_example =
    delivery_round-arrives at_once "r1" approved_request fresh_desk (λ n row body. told)
      (refl, (refl, tt)) refl refl refl refl (λ n body. refl) (omega arith)
