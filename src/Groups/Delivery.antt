-- ===== src/Groups/Delivery.antt =====
-- The delivery of decisions on requests to join: runtime/group_decisions.py. The clock and the reading
-- of dates are parameters, as is the post to the joiner with its two ways.
use mathlib.Core.Option
use nexus_grid_grid.Prelude.Dicts
use nexus_grid_grid.Prelude.{
  ℕ, zero, suc, ◌+◌, Bool, true, false, not, ◌&&◌, ◌||◌, List, [], ◌∷◌, ◌++◌, Option, none, some,
  String, Dict, select, leb, ltb, if◌then◌else◌, ◌==◌, text_key,
}
use nexus_grid_grid.Groups.{or_text, GroupPendingJoinRequest}
pub mod Tests

abbrev pub group_decision_max_attempts : ℕ
group_decision_max_attempts = 5

-- What an approval carries.
pub record GrantMeta : Type 0 where
  pub grant_blob_b64 : String
  pub default_role : String
  pub issued_at : String
  pub expires_at : String
  pub symkey_envelope_b64 : String

pub record GroupMeta : Type 0 where
  pub group_name : String
  pub founder_pubkey : String
  pub privacy_mode : String
  pub founder_display_name : String

pub record DecisionBody : Type 0 where
  pub request_id : String
  pub group_id : String
  pub group_name : String
  pub founder_pubkey : String
  pub decision : String
  pub reason : String
  pub privacy_mode : String
  pub founder_display_name : String
  pub founder_address : String
  pub founder_node_id : String
  pub grant : Option GrantMeta

-- What a round looks up, and what it calls outside. `post` takes the number of posts so far, so that
-- each may be answered in its own way; `none` is an exception that `_post_to_joiner` lets through, as
-- it does each that is no `httpx.HTTPError`.
pub record DecisionWorld : Type 0 where
  pub now_iso : String
  pub node_uuid : String
  pub in_window : String → Bool
  pub founder_address : String
  pub live_group_meta : String → GroupMeta
  pub live_grant_meta : GroupPendingJoinRequest → GrantMeta
  pub post : ℕ → GroupPendingJoinRequest → DecisionBody → Option ℕ

abbrev pub Rows : Type 0
Rows = Dict String GroupPendingJoinRequest

-- The table, the attempts kept in memory, and the bodies handed to the post, the last one first.
pub record Desk : Type 0 where
  pub rows : Rows
  pub attempts : Dict String ℕ
  pub posted : List DecisionBody

unfoldable pub attempts_of : String → Dict String ℕ → ℕ
attempts_of request_id attempts = elim (Dicts.get request_id attempts) [ none ↦ 0 | some k ↦ k ]

unfoldable pub with_grant : String → Option GrantMeta → Option GrantMeta
with_grant status none = none
with_grant status (some g) =
    if status == "approved" && not (g.grant_blob_b64 == "")
    then some (record g { default_role = or_text g.default_role "member" })
    else none

unfoldable pub build_decision_body :
    DecisionWorld → String → GroupMeta → Option GrantMeta → GroupPendingJoinRequest → DecisionBody
unfolding with_grant
build_decision_body w id meta grant row = record {
  request_id = id;
  group_id = row.group_id;
  group_name = meta.group_name;
  founder_pubkey = meta.founder_pubkey;
  decision = row.status;
  reason = row.decision_reason;
  privacy_mode = or_text meta.privacy_mode "open";
  founder_display_name = meta.founder_display_name;
  founder_address = w.founder_address;
  founder_node_id = w.node_uuid;
  grant = with_grant row.status grant;
}

unfoldable pub is_reachable : GroupPendingJoinRequest → Bool
is_reachable row = not (row.details.joiner_address == "" && row.details.joiner_node_id == "")

unfoldable pub is_success : ℕ → Bool
is_success status = leb 200 status && ltb status 300

unfoldable pub post_count : List DecisionBody → ℕ
post_count [] = 0
post_count (b ∷ bodies) = suc (post_count bodies)

-- The row is stamped and its attempts forgotten, or one attempt more is counted.
unfoldable pub after_post :
    DecisionWorld → String → GroupPendingJoinRequest → Bool → Desk → Desk × Bool
unfolding attempts_of
after_post w id row true d = (
  record d {
    rows = Dicts.insert id (record row { delivered_at = w.now_iso }) d.rows;
    attempts = Dicts.erase id d.attempts;
  },
  true,
)
after_post w id row false d =
    (record d { attempts = Dicts.insert id (suc (attempts_of id d.attempts)) d.attempts }, false)

-- What the answer to a post does; `none` stands for the exception going on.
unfoldable pub after_answer :
    DecisionWorld → String → GroupPendingJoinRequest → Option ℕ → Desk → Desk × Option Bool
unfolding is_success after_post
after_answer w id row none d = (d, none)
after_answer w id row (some status) d =
    let out = after_post w id row (is_success status) d in (out.0, some out.1)

unfoldable pub attempt_deliver_one :
    DecisionWorld → String → GroupPendingJoinRequest → DecisionBody → Desk → Desk × Option Bool
unfolding is_reachable post_count after_answer
attempt_deliver_one w id row body d =
    if is_reachable row
    then after_answer w id row (w.post (post_count d.posted) row body)
        (record d { posted = body ∷ d.posted })
    else (d, some false)

unfoldable pub grant_for : DecisionWorld → GroupPendingJoinRequest → Option GrantMeta
grant_for w row = if row.status == "approved" then some (w.live_grant_meta row) else none

-- The decision on one row, as it is posted.
unfoldable pub body_for : DecisionWorld → String → GroupPendingJoinRequest → DecisionBody
unfolding build_decision_body grant_for
body_for w id row = build_decision_body w id (w.live_group_meta row.group_id) (grant_for w row) row

-- One row of the loop.
unfoldable pub deliver_row :
    DecisionWorld → String → GroupPendingJoinRequest → Desk → Desk × Option Bool
unfolding attempts_of attempt_deliver_one body_for
deliver_row w id row d =
    if leb group_decision_max_attempts (attempts_of id d.attempts)
      || not (w.in_window row.created_at)
    then (d, some false)
    else attempt_deliver_one w id row (body_for w id row) d

-- An exception ends the loop; the rows after it are not looked at.
unfoldable pub after_row : Option Bool → Desk → Desk × Option ℕ → Desk × Option ℕ
after_row none d rest = (d, none)
after_row (some ok) d rest = (rest.0, Option.map (λ n. if ok then suc n else n) rest.1)

unfoldable pub deliver_rows : DecisionWorld → Rows → Desk → Desk × Option ℕ
unfolding deliver_row after_row
deliver_rows w [] d = (d, some 0)
deliver_rows w ((id, row) ∷ rows) d =
    let one = deliver_row w id row d in
    let rest = deliver_rows w rows one.0 in after_row one.1 one.0 rest

-- The session is committed, or left behind with its rows as they were; the attempts are not in it.
unfoldable pub close_session : Rows → Option ℕ → Desk → Desk × Option ℕ
close_session before none d = (record d { rows = before }, none)
close_session before (some delivered) d = (d, some delivered)

unfoldable pub is_undelivered : GroupPendingJoinRequest → Bool
is_undelivered row = not (row.status == "pending") && row.delivered_at == ""

-- A round of `group_decision_delivery_loop`: the query runs once, before the loop.
unfoldable pub delivery_round : DecisionWorld → Desk → Desk × Option ℕ
unfolding deliver_rows is_undelivered close_session
delivery_round w d =
    let out = deliver_rows w (select (λ e. is_undelivered e.1) d.rows) d in
    close_session d.rows out.1 out.0
