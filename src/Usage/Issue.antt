-- ===== src/Usage/Issue.antt =====
-- `issue_compute_receipt` of runtime/usage_receipts.py: the consumer of a finished task signs a
-- receipt for the worker, stores it, and sends it on. The roster is the table of group members; the
-- id that the library draws, the signing and the two checks are parameters; no send fails.
use nexus_grid_grid.Prelude.Text.{strip}
use nexus_grid_grid.Prelude.{
  Bool, not, ◌&&◌, ◌||◌, List, [], ◌∷◌, is_empty, String, if◌then◌else◌, ◌==◌, text_key,
}
use nexus_grid_grid.Prelude.Int.{ℤ, pos, negsuc}
use nexus_grid_grid.Usage.{Receipt, Ledger, store_and_apply}

pub record GroupMember : Type 0 where
  pub group_id : String
  pub node_id : String
  pub pubkey : String
  pub peer_address : String

-- The pubkey of the first member of the group that passes the test, or blank.
unfoldable pub first_pubkey : String → (GroupMember → Bool) → List GroupMember → String
first_pubkey gid test [] = ""
first_pubkey gid test (m ∷ ms) =
    let rest = first_pubkey gid test ms in if (m.group_id == gid) && test m then m.pubkey else rest

unfoldable pub provider_pubkey_for : List GroupMember → String → String → String → String
unfolding first_pubkey
provider_pubkey_for roster gid worker_uuid worker_ip =
    let by_node =
      if worker_uuid == "" then "" else first_pubkey gid (λ m. m.node_id == worker_uuid) roster in
    if not (by_node == "")
    then by_node
    else if worker_ip == ""
    then ""
    else first_pubkey gid (λ m. m.peer_address == worker_ip) roster

-- The first of the task's groups that knows the worker, with the worker's key; blank when none does.
unfoldable pub resolve_provider : List GroupMember → String → List String → String × String
unfolding provider_pubkey_for
resolve_provider roster worker [] = ("", "")
resolve_provider roster worker (g ∷ gs) =
    let rest = resolve_provider roster worker gs in
    let provider = provider_pubkey_for roster g worker worker in
    if not (provider == "") then (g, provider) else rest

unfoldable pub provider_addr : List GroupMember → String → String → String
provider_addr [] gid provider = ""
provider_addr (m ∷ ms) gid provider =
    let rest = provider_addr ms gid provider in
    if (m.group_id == gid) && ((m.pubkey == provider) && not (m.peer_address == ""))
    then m.peer_address
    else rest

-- What leaves the node.
pub data Outgoing : Type 0 where
  broadcast : (group_id : String) (receipt : Receipt) (sig : String) → Outgoing
  pushed : (address : String) (receipt : Receipt) (sig : String) → Outgoing

unfoldable pub push_receipt : String → Receipt → String → List Outgoing
push_receipt address receipt sig = if address == "" then [] else pushed address receipt sig ∷ []

-- `max(0, n)`
unfoldable pub at_least_zero : ℤ → ℤ
at_least_zero (pos n) = pos n
at_least_zero (negsuc n) = pos 0

-- What the call is given: the finished task and the worker's claim.
pub record Finished : Type 0 where
  pub task_id : String
  pub worker : String
  pub target_groups : List String
  pub elapsed_secs : ℤ
  pub worker_pubkey : String
  pub worker_proof : String

module _ (sign : Receipt → String) (verify : Receipt → String → Bool)
    (verify_worker_proof : String → String → ℤ → String → Bool) (me : String) where
  -- The time and the id that the node draws.
  unfoldable pub make_receipt : String → String → String → String → String → ℤ → Receipt
  make_receipt now id gid provider ref_id amount = record {
    receipt_id = id;
    group_id = gid;
    provider_pubkey = provider;
    consumer_pubkey = me;
    kind = "compute";
    ref_id = ref_id;
    amount = amount;
    ts = now;
  }

  unfoldable pub apply_own : String → Receipt → Ledger → Ledger
  apply_own now receipt ledger =
      (store_and_apply verify me (record { at = now; receipt = receipt; sig = sign receipt })
        ledger).0

  -- The branch of a task for groups, and that of a task for a single peer.
  unfoldable pub issue_to_group :
      List GroupMember → String → String → Finished → Ledger → Ledger × List Outgoing
  unfolding resolve_provider provider_addr push_receipt at_least_zero make_receipt apply_own
  issue_to_group roster now id task ledger =
      let found = resolve_provider roster task.worker task.target_groups in
      let receipt =
        make_receipt now id found.0 found.1 task.task_id (at_least_zero task.elapsed_secs) in
      if (found.1 == "") || (found.1 == me) then (ledger, []) else (
        apply_own now receipt ledger,
        broadcast found.0 receipt (sign receipt)
            ∷ push_receipt (provider_addr roster found.0 found.1) receipt (sign receipt),
      )

  unfoldable pub issue_to_peer : String → String → Finished → Ledger → Ledger × List Outgoing
  unfolding push_receipt at_least_zero make_receipt apply_own
  issue_to_peer now id task ledger =
      let provider = strip task.worker_pubkey in
      let receipt =
        make_receipt now id "" provider task.task_id (at_least_zero task.elapsed_secs) in
      if (provider == "") || (provider == me)
      then (ledger, [])
      else if not (verify_worker_proof task.task_id provider task.elapsed_secs task.worker_proof)
      then (ledger, [])
      else (apply_own now receipt ledger, push_receipt task.worker receipt (sign receipt))

  unfoldable pub issue_compute_receipt :
      List GroupMember → String → String → Finished → Ledger → Ledger × List Outgoing
  unfolding issue_to_group issue_to_peer
  issue_compute_receipt roster now id task ledger =
      if is_empty task.target_groups
      then issue_to_peer now id task ledger
      else issue_to_group roster now id task ledger
