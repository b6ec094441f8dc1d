-- ===== src/Usage.antt =====
-- The usage ledger of runtime/usage_receipts.py: receipts that the consumer signed are stored once
-- and folded into the totals of each group member and into this node's own counters
-- (runtime/group_compute_telemetry.py). A receipt's fields are read as text and numbers; the check of
-- its signature is a parameter; time stamps are the texts that the clock gives.
use mathlib.Core.Option
use nexus_grid_grid.Prelude.Dicts
use nexus_grid_grid.Prelude.{
  ℕ, ◌+◌, Bool, true, false, not, ◌&&◌, ◌||◌, List, [], ◌∷◌, Option, none, some, String, Dict,
  if◌then◌else◌, ◌==◌, text_key, nat_eq, pair_key,
}
use nexus_grid_grid.Prelude.Int.{ℤ, pos, negsuc, ◌+ℤ◌}
pub mod Shares
pub mod Steps
pub mod Swaps
pub mod Convergence
pub mod Once
pub mod Balance
pub mod Summary
pub mod Counted
pub mod Rebuilt
pub mod Sampling
pub mod Issue
pub mod Issued
pub mod Samples
mod Tests

pub record Receipt : Type 0 where
  pub receipt_id : String
  pub group_id : String
  pub provider_pubkey : String
  pub consumer_pubkey : String
  pub kind : String
  pub ref_id : String
  pub amount : ℤ
  pub ts : String

-- A row of the table of receipts.
pub record UsageReceipt : Type 0 where
  pub body : Receipt
  pub sig : String

-- A row of the table of totals, one per group and member.
pub record GroupComputeStat : Type 0 where
  pub contributed : ℕ
  pub consumed : ℕ
  pub updated_at : String

-- `_FIELDS`: the columns of a bucket that are counted. No call gives another name, so the filter of
-- unknown names is left out.
unfoldable pub counted_fields : List String
counted_fields =
    "tasks_contributed" ∷ "tasks_consumed" ∷ "compute_secs_contributed" ∷ "compute_secs_consumed"
    ∷ "storage_bytes_hosted" ∷ "storage_bytes_used" ∷ []

abbrev pub Counters : Type 0
Counters = Dict (String × String) ℤ

pub record Ledger : Type 0 where
  pub receipts : Dict String UsageReceipt
  pub stats : Dict (String × String) GroupComputeStat
  pub counters : Counters

-- A `defaultdict(int)` read at a key.
unfoldable pub pending : String × String → Counters → ℤ
pending key counters = Option.get_or (Dicts.get key counters) (pos 0)

unfoldable pub accumulate : String × String → ℤ → Counters → Counters
unfolding pending
accumulate key value counters = Dicts.insert key (pending key counters +ℤ value) counters

-- A count of nothing is skipped, one below zero is not.
unfoldable pub is_zero : ℤ → Bool
is_zero (pos n) = n == 0
is_zero (negsuc n) = false

-- One of the deltas of a call; `"*"` is the total over all groups.
unfoldable pub record_delta : String → String → ℤ → Counters → Counters
unfolding accumulate is_zero
record_delta group_id field value counters =
    if is_zero value
    then counters
    else accumulate ("*", field) value (accumulate (group_id, field) value counters)

unfoldable pub record_deltas : String → List (String × ℤ) → Counters → Counters
unfolding record_delta
record_deltas group_id [] counters = counters
record_deltas group_id ((field, value) ∷ deltas) counters =
    let rest = record_deltas group_id deltas (record_delta group_id field value counters) in
    if group_id == "" then counters else rest

-- A missing row starts at zero.
unfoldable pub bumped : String → ℕ → ℕ → Option GroupComputeStat → GroupComputeStat
bumped now contributed consumed none = record {
  contributed = 0 + contributed;
  consumed = 0 + consumed;
  updated_at = now;
}
bumped now contributed consumed (some row) = record {
  contributed = row.contributed + contributed;
  consumed = row.consumed + consumed;
  updated_at = now;
}

unfoldable pub bump_stat :
    String
    → String × String
    → ℕ
    → ℕ
    → Dict (String × String) GroupComputeStat
    → Dict (String × String) GroupComputeStat
unfolding bumped
bump_stat now key contributed consumed stats =
    Dicts.insert key (bumped now contributed consumed (Dicts.get key stats)) stats

-- The two totals that a task moves.
unfoldable pub bump_members :
    String
    → Receipt
    → Dict (String × String) GroupComputeStat
    → Dict (String × String) GroupComputeStat
unfolding bump_stat
bump_members now receipt stats =
    if not (receipt.group_id == "") && receipt.kind == "compute"
    then bump_stat now (receipt.group_id, receipt.consumer_pubkey) 0 1
        (bump_stat now (receipt.group_id, receipt.provider_pubkey) 1 0 stats)
    else stats

unfoldable pub bucket_gid : Receipt → String
bucket_gid receipt = if receipt.group_id == "" then "peer" else receipt.group_id

-- What this node counts of an exchange that it provided, or consumed.
unfoldable pub provided_deltas : Receipt → List (String × ℤ)
provided_deltas receipt =
    if receipt.kind == "compute"
    then ("tasks_contributed", pos 1) ∷ ("compute_secs_contributed", receipt.amount) ∷ []
    else if receipt.kind == "storage"
    then ("storage_bytes_hosted", receipt.amount) ∷ []
    else []

unfoldable pub consumed_deltas : Receipt → List (String × ℤ)
consumed_deltas receipt =
    if receipt.kind == "compute"
    then ("tasks_consumed", pos 1) ∷ ("compute_secs_consumed", receipt.amount) ∷ []
    else if receipt.kind == "storage"
    then ("storage_bytes_used", receipt.amount) ∷ []
    else []

unfoldable pub feed_counters : String → Receipt → Counters → Counters
unfolding record_deltas bucket_gid provided_deltas consumed_deltas
feed_counters me receipt counters =
    let after =
      if receipt.provider_pubkey == me
      then record_deltas (bucket_gid receipt) (provided_deltas receipt) counters
      else counters in
    if receipt.consumer_pubkey == me
    then record_deltas (bucket_gid receipt) (consumed_deltas receipt) after
    else after

-- `str(receipt.get("ts") or iso_now())`
unfoldable pub row_of : String → Receipt → String → UsageReceipt
row_of now receipt sig = record {
  body = record receipt { ts = if receipt.ts == "" then now else receipt.ts };
  sig = sig;
}

unfoldable pub is_stored : String → Ledger → Bool
is_stored receipt_id ledger = elim (Dicts.get receipt_id ledger.receipts) [
  | none ↦ false
  | some row ↦ true
]

-- The writes of a receipt that is new.
unfoldable pub apply_new : String → String → Receipt → String → Ledger → Ledger
unfolding row_of bump_members feed_counters
apply_new me now receipt sig ledger = record {
  receipts = Dicts.insert receipt.receipt_id (row_of now receipt sig) ledger.receipts;
  stats = bump_members now receipt ledger.stats;
  counters = feed_counters me receipt ledger.counters;
}

abbrev pub empty_ledger : Ledger
empty_ledger = record { receipts = []; stats = []; counters = [] }

-- A receipt as it arrives: the time, the receipt and its signature.
pub record Delivery : Type 0 where
  pub at : String
  pub receipt : Receipt
  pub sig : String

module _ (verify : Receipt → String → Bool) (me : String) where
  unfoldable pub is_acceptable : Delivery → Bool
  is_acceptable d =
      verify d.receipt d.sig
      && not (
          d.receipt.receipt_id == ""
          || d.receipt.provider_pubkey == ""
          || d.receipt.consumer_pubkey == "")

  unfoldable pub store_and_apply : Delivery → Ledger → Ledger × Bool
  unfolding is_acceptable is_stored apply_new
  store_and_apply d ledger =
      if not (is_acceptable d)
      then (ledger, false)
      else if is_stored d.receipt.receipt_id ledger
      then (ledger, false)
      else (apply_new me d.at d.receipt d.sig ledger, true)

  unfoldable pub deliver_all : List Delivery → Ledger → Ledger
  unfolding store_and_apply
  deliver_all [] ledger = ledger
  deliver_all (d ∷ ds) ledger = deliver_all ds (store_and_apply d ledger).0
