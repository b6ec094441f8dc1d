-- ===== src/Usage/Issued.antt =====
-- What a node signs for the work that others did for it.
use nexus_grid_grid.Prelude.Dicts
use nexus_grid_grid.Prelude.{
  Bool, true, false, ◌||◌, ◌≡◌, ◌≢◌, refl, is_empty, List, some, String, ◌==◌, text_key, All, arith,
  inl, inr, Bool-cases, ne_of_beq, beq_false,
}
use nexus_grid_grid.Prelude.Text.{strip}
use nexus_grid_grid.Prelude.Int.{ℤ}
use nexus_grid_grid.Usage.{
  Receipt, Ledger, row_of, is_stored, apply_new, is_acceptable, store_and_apply,
}
use nexus_grid_grid.Usage.Issue.{
  GroupMember, resolve_provider, provider_addr, Outgoing, broadcast, pushed, push_receipt,
  at_least_zero, Finished, make_receipt, apply_own, issue_to_group, issue_to_peer,
  issue_compute_receipt,
}

abbrev pub receipt_of : Outgoing → Receipt
receipt_of (broadcast group_id receipt sig) = receipt
receipt_of (pushed address receipt sig) = receipt

module _ (sign : Receipt → String) (verify : Receipt → String → Bool)
    (verify_worker_proof : String → String → ℤ → String → Bool) (me : String) where
  -- A receipt that leaves the node credits another than the node, charges the node with the time of
  -- the task, which is not below zero, and is the one that the node itself stored.
  pub record IsIssued (now : String) (task : Finished) (ledger : Ledger) (receipt : Receipt)
      : Type 0 where
    pub credited : (receipt.provider_pubkey ≢ me) × (receipt.provider_pubkey ≢ "")
    pub charged : receipt.consumer_pubkey ≡ me
    pub task_named : receipt.ref_id ≡ task.task_id
    pub timed : receipt.amount ≡ at_least_zero task.elapsed_secs
    pub kept :
        Dicts.get receipt.receipt_id ledger.receipts ≡ some (row_of now receipt (sign receipt))

  -- The node's signature is accepted on a receipt whose consumer is the node itself.
  abbrev pub SignsOwn : Type 0
  SignsOwn =
      (receipt : Receipt) → receipt.consumer_pubkey ≡ me → verify receipt (sign receipt) ≡ true

  apply_own_keeps :
      (now : String) (receipt : Receipt) (ledger : Ledger)
      → verify receipt (sign receipt) ≡ true
      → receipt.receipt_id ≢ ""
      → receipt.provider_pubkey ≢ ""
      → receipt.consumer_pubkey ≢ ""
      → is_stored receipt.receipt_id ledger ≡ false
      → Dicts.get receipt.receipt_id
          (apply_own sign verify verify_worker_proof me now receipt ledger).receipts
        ≡ some (row_of now receipt (sign receipt))
  unfolding apply_own store_and_apply is_acceptable apply_new
  apply_own_keeps now receipt ledger signed id provider consumer fresh = ground (
    arith,
    beq_false receipt.receipt_id "" id,
    beq_false receipt.provider_pubkey "" provider,
    beq_false receipt.consumer_pubkey "" consumer,
    Dicts.get-insert_self receipt.receipt_id (row_of now receipt (sign receipt)) ledger.receipts,
  )

  made : String → String → String → String → Finished → Receipt
  made now id gid provider task =
      make_receipt sign verify verify_worker_proof me now id gid provider task.task_id
        (at_least_zero task.elapsed_secs)

  made-IsIssued :
      (now id gid provider : String) (task : Finished) (ledger : Ledger)
      → SignsOwn
      → me ≢ ""
      → id ≢ ""
      → is_stored id ledger ≡ false
      → ((provider == "") || (provider == me)) ≡ false
      → IsIssued now task
          (apply_own sign verify verify_worker_proof me now (made now id gid provider task) ledger)
          (made now id gid provider task)
  unfolding made make_receipt
  made-IsIssued now id gid provider task ledger signs known named fresh other =
      let apart = ne_of_beq provider me (ground arith) in
      let filled = ne_of_beq provider "" (ground arith) in
      record {
        credited = (apart, filled);
        charged = refl;
        task_named = refl;
        timed = refl;
        kept =
            apply_own_keeps now (made now id gid provider task) ledger
              (signs (made now id gid provider task) refl) named filled known fresh;
      }

  push_receipt-All :
      (P : Receipt → Type 0) (address sig : String) (receipt : Receipt)
      → P receipt
      → All (λ s. P (receipt_of s)) (push_receipt address receipt sig)
  unfolding push_receipt
  push_receipt-All P address sig receipt h = elim (Bool-cases (address == "")) [
    | inl e ↦ rw e tt
    | inr e ↦ rw e (h, tt)
  ]

  issue_to_peer-IsIssued :
      (now id : String) (task : Finished) (ledger : Ledger)
      → SignsOwn
      → me ≢ ""
      → id ≢ ""
      → is_stored id ledger ≡ false
      → let after = issue_to_peer sign verify verify_worker_proof me now id task ledger in
        All (λ s. IsIssued now task after.0 (receipt_of s)) after.1
  unfolding issue_to_peer made
  issue_to_peer-IsIssued now id task ledger signs known named fresh =
      let provider = strip task.worker_pubkey in
      elim (Bool-cases ((provider == "") || (provider == me))) [
        | inl e ↦ rw e tt
        | inr e ↦
            rw e
              (elim (Bool-cases
                (verify_worker_proof task.task_id provider task.elapsed_secs task.worker_proof)) [
                  | inr p ↦ rw p tt
                  | inl p ↦ rw p (
                      push_receipt-All
                        (IsIssued now task (
                          apply_own sign verify verify_worker_proof me now
                            (made now id "" provider task) ledger))
                        task.worker (sign (made now id "" provider task))
                        (made now id "" provider task)
                        (made-IsIssued now id "" provider task ledger signs known named fresh e))
                ])
      ]

  issue_to_group-IsIssued :
      (roster : List GroupMember) (now id : String) (task : Finished) (ledger : Ledger)
      → SignsOwn
      → me ≢ ""
      → id ≢ ""
      → is_stored id ledger ≡ false
      → let after = issue_to_group sign verify verify_worker_proof me roster now id task ledger in
        All (λ s. IsIssued now task after.0 (receipt_of s)) after.1
  unfolding issue_to_group made
  issue_to_group-IsIssued roster now id task ledger signs known named fresh =
      let found = resolve_provider roster task.worker task.target_groups in
      elim (Bool-cases ((found.1 == "") || (found.1 == me))) [
        | inl e ↦ rw e tt
        | inr e ↦ rw e (
          made-IsIssued now id found.0 found.1 task ledger signs known named fresh e,
          push_receipt-All
              (IsIssued now task (
                apply_own sign verify verify_worker_proof me now (made now id found.0 found.1 task)
                  ledger))
              (provider_addr roster found.0 found.1) (sign (made now id found.0 found.1 task))
              (made now id found.0 found.1 task)
              (made-IsIssued now id found.0 found.1 task ledger signs known named fresh e),
        )
      ]

  -- Every receipt that a finished task sends out, to a group or to a peer, credits another than this
  -- node, charges this node with the time of the task (zero at the least), and stands in this node's
  -- own ledger, provided the node's signature is accepted on the receipts that it is itself the consumer
  -- of, the node has a key, and the id that it draws is not blank and not in use.
  pub issue_compute_receipt-IsIssued :
      (roster : List GroupMember) (now id : String) (task : Finished) (ledger : Ledger)
      → SignsOwn
      → me ≢ ""
      → id ≢ ""
      → is_stored id ledger ≡ false
      → let after =
          issue_compute_receipt sign verify verify_worker_proof me roster now id task ledger in
        All (λ s. IsIssued now task after.0 (receipt_of s)) after.1
  unfolding issue_compute_receipt
  issue_compute_receipt-IsIssued roster now id task ledger signs known named fresh =
      elim (Bool-cases (is_empty task.target_groups)) [
        | inl e ↦ rw e (issue_to_peer-IsIssued now id task ledger signs known named fresh)
        | inr e ↦ rw e (issue_to_group-IsIssued roster now id task ledger signs known named fresh)
      ]
