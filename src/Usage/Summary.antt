-- ===== src/Usage/Summary.antt =====
-- The summary that `global_usage_summary` of runtime/usage_receipts.py recomputes from the stored
-- receipts.
use mathlib.Core.Option
use nexus_grid_grid.Prelude.Dicts
use nexus_grid_grid.Prelude.{
  Bool, ◌||◌, List, [], ◌∷◌, ◌++◌, String, Dict, if◌then◌else◌, ◌==◌, text_key, select, map,
  contains, length,
}
use nexus_grid_grid.Prelude.Int.{ℤ, pos, ◌+ℤ◌}
use nexus_grid_grid.Usage.{Receipt, Ledger}

-- The sums by name, and the three sets of peers.
pub record Summary : Type 0 where
  pub out : Dict String ℤ
  pub helped : List String
  pub used : List String
  pub service_users : List String

unfoldable pub value : String → Dict String ℤ → ℤ
value key out = Option.get_or (Dicts.get key out) (pos 0)

-- `out[key] += amount`
unfoldable pub add_to : String → ℤ → Dict String ℤ → Dict String ℤ
unfolding value
add_to key amount out = Dicts.insert key (value key out +ℤ amount) out

unfoldable pub add_member : String → List String → List String
add_member member members = if contains members member then members else members ++ member ∷ []

unfoldable pub empty_summary : Summary
empty_summary = record {
  out =
      ("compute_secs_contributed", pos 0)
      ∷ ("compute_secs_consumed", pos 0)
      ∷ ("storage_bytes_hosted", pos 0)
      ∷ ("storage_bytes_used", pos 0)
      ∷ ("tasks_contributed", pos 0)
      ∷ ("tasks_consumed", pos 0)
      ∷ ("service_secs_served", pos 0)
      ∷ ("service_secs_used", pos 0)
      ∷ ("service_bytes_served", pos 0)
      ∷ ("service_bytes_used", pos 0)
      ∷ [];
  helped = [];
  used = [];
  service_users = [];
}

-- The sums of a row that this node provided, and of one that it only consumed.
unfoldable pub add_provided : Receipt → Dict String ℤ → Dict String ℤ
unfolding add_to
add_provided r out =
    if r.kind == "compute"
    then add_to "tasks_contributed" (pos 1) (add_to "compute_secs_contributed" r.amount out)
    else if r.kind == "storage"
    then add_to "storage_bytes_hosted" r.amount out
    else if r.kind == "service"
    then add_to "service_secs_served" r.amount out
    else if r.kind == "service_bytes"
    then add_to "service_bytes_served" r.amount out
    else out

unfoldable pub add_consumed : Receipt → Dict String ℤ → Dict String ℤ
unfolding add_to
add_consumed r out =
    if r.kind == "compute"
    then add_to "tasks_consumed" (pos 1) (add_to "compute_secs_consumed" r.amount out)
    else if r.kind == "storage"
    then add_to "storage_bytes_used" r.amount out
    else if r.kind == "service"
    then add_to "service_secs_used" r.amount out
    else if r.kind == "service_bytes"
    then add_to "service_bytes_used" r.amount out
    else out

unfoldable pub count_row : String → Receipt → Summary → Summary
unfolding add_provided add_consumed add_member
count_row me r summary =
    if r.provider_pubkey == me
    then record {
      out = add_provided r summary.out;
      helped = add_member r.consumer_pubkey summary.helped;
      used = summary.used;
      service_users =
          if r.kind == "service"
          then add_member r.consumer_pubkey summary.service_users
          else summary.service_users;
    }
    else record {
      out = add_consumed r summary.out;
      helped = summary.helped;
      used = add_member r.provider_pubkey summary.used;
      service_users = summary.service_users;
    }

unfoldable pub is_mine : String → Receipt → Bool
is_mine me r = (r.provider_pubkey == me) || (r.consumer_pubkey == me)

unfoldable pub count_rows : String → List Receipt → Summary → Summary
unfolding count_row
count_rows me [] summary = summary
count_rows me (r ∷ rs) summary = count_rows me rs (count_row me r summary)

-- The three counts of peers are written last.
unfoldable pub finish : Summary → Dict String ℤ
finish summary = Dicts.insert "service_users" (pos (length summary.service_users)) (
    Dicts.insert "peers_used" (pos (length summary.used))
      (Dicts.insert "peers_helped" (pos (length summary.helped)) summary.out))

unfoldable pub global_usage_summary : String → Ledger → Dict String ℤ
unfolding count_rows is_mine empty_summary finish
global_usage_summary me ledger = finish (
    count_rows me (select (is_mine me) (map (λ entry. entry.1.body) ledger.receipts)) empty_summary)
