-- ===== src/Groups/Requests.antt =====
-- The frames about requests to join: `pending.request` and `pending.decision`.
use nexus_grid_grid.Prelude.Dicts
use nexus_grid_grid.Prelude.{
  Bool, true, false, not, ◌||◌, none, some, String, if◌then◌else◌, ◌==◌, text_key,
}
use nexus_grid_grid.Groups.{or_text, JoinDetails, GroupPendingJoinRequest, Tables, tell}

unfoldable pub new_request : String → String → JoinDetails → String → GroupPendingJoinRequest
new_request now group_id details created_at = record {
  group_id = group_id;
  details = details;
  status = "pending";
  created_at = or_text created_at now;
  decided_at = "";
  decided_by_pubkey = "";
  decision_reason = "";
  delivered_at = "";
}

unfoldable pub apply_pending_request :
    String → String → String → String → JoinDetails → String → Tables → Tables × Bool
unfolding new_request tell
apply_pending_request now channel group_id request_id details created_at t =
    if not (group_id == channel) || request_id == ""
    then (t, false)
    else elim (Dicts.get request_id t.requests) [
      | some row ↦ (t, false)
      | none ↦ (
        tell "group.pending" channel (record t {
          requests =
              Dicts.insert request_id (new_request now group_id details created_at) t.requests;
        }),
        true,
      )
    ]

-- What a decision says beside the request that it is about.
pub record Verdict : Type 0 where
  pub status : String
  pub decided_at : String
  pub decided_by : String
  pub reason : String

unfoldable pub decided : String → Verdict → GroupPendingJoinRequest → GroupPendingJoinRequest
decided now v row = record row {
  status = v.status;
  decided_at = or_text v.decided_at now;
  decided_by_pubkey = v.decided_by;
  decision_reason = v.reason;
}

unfoldable pub decide_row :
    String → String → String → Verdict → GroupPendingJoinRequest → Tables → Tables × Bool
unfolding decided tell
decide_row now channel request_id v row t = if not (row.status == "pending") then (t, false) else (
  tell "group.pending" channel
      (record t { requests = Dicts.insert request_id (decided now v row) t.requests }),
  true,
)

unfoldable pub apply_pending_decision :
    String → String → String → String → Verdict → Tables → Tables × Bool
unfolding decide_row
apply_pending_decision now channel group_id request_id v t =
    if not (group_id == channel)
      || (request_id == "" || not (v.status == "approved" || v.status == "rejected"))
    then (t, false)
    else elim (Dicts.get request_id t.requests) [
      | none ↦ (t, false)
      | some row ↦ decide_row now channel request_id v row t
    ]
