-- ===== src/Usage/Tests.antt =====
-- The theorems on the usage ledger applied to two exchanges.
use nexus_grid_grid.Prelude.Dicts
use nexus_grid_grid.Prelude.{
  ◌≡◌, refl, ap, ◌∙◌, ◌==◌, String, List, [], ◌∷◌, text_key, pair_key, ne_of_beq, All, beq_refl,
}
use nexus_grid_grid.Usage.{is_stored, empty_ledger, counted_fields, pending, Delivery, deliver_all}
use nexus_grid_grid.Usage.Shares.{contributed_by, consumed_by}
use nexus_grid_grid.Usage.Steps.{SameLedger}
use nexus_grid_grid.Usage.Convergence.{swap_two, again, followed_by, deliver_all-Redelivered}
use nexus_grid_grid.Usage.Balance.{IsBalanced, deliver_all-IsBalanced}
use nexus_grid_grid.Usage.Counted.{IsExchange}
use nexus_grid_grid.Usage.Summary.{value, global_usage_summary}
use nexus_grid_grid.Usage.Rebuilt.{global_usage_summary_rebuilt}
use nexus_grid_grid.Usage.Issue.{issue_compute_receipt}
use nexus_grid_grid.Usage.Issued.{receipt_of, IsIssued, issue_compute_receipt-IsIssued}
use nexus_grid_grid.Usage.Samples.{
  signed_by_ben, checks_consumer, any_proof, first_delivery, second_delivery, roster, finished_task,
}

abbrev deliveries : List Delivery
deliveries = first_delivery ∷ second_delivery ∷ []

deliver_all-Redelivered_example :
    SameLedger (deliver_all checks_consumer "anna" deliveries empty_ledger) (
      deliver_all checks_consumer "anna"
        (second_delivery ∷ second_delivery ∷ first_delivery ∷ [])
        empty_ledger)
deliver_all-Redelivered_example =
    deliver_all-Redelivered checks_consumer "anna" empty_ledger
      (followed_by (swap_two (λ p. absurd (ne_of_beq "r1" "r2" refl p))) again)

empty_ledger-IsBalanced : IsBalanced empty_ledger
unfolding contributed_by consumed_by Dicts.get
empty_ledger-IsBalanced = record { contributed = λ key. refl; consumed = λ key. refl }

deliver_all-IsBalanced_example :
    IsBalanced (deliver_all checks_consumer "anna" deliveries empty_ledger)
deliver_all-IsBalanced_example =
    deliver_all-IsBalanced checks_consumer "anna" deliveries empty_ledger empty_ledger-IsBalanced

exchanges : All (λ d. IsExchange d.receipt) deliveries
exchanges = (
  record { apart = ne_of_beq "anna" "ben" refl; grouped = ne_of_beq "g" "*" refl },
  (record { apart = ne_of_beq "ben" "anna" refl; grouped = ne_of_beq "g" "*" refl }, tt),
)

global_usage_summary_rebuilt_example :
    value "compute_secs_contributed"
      (global_usage_summary "anna" (deliver_all checks_consumer "anna" deliveries empty_ledger))
    ≡ pending
        ("*", "compute_secs_contributed")
        (deliver_all checks_consumer "anna" deliveries empty_ledger).counters
unfolding counted_fields
global_usage_summary_rebuilt_example =
    global_usage_summary_rebuilt checks_consumer "anna" "compute_secs_contributed" deliveries refl
      exchanges

issue_compute_receipt-IsIssued_example :
    let after =
      issue_compute_receipt signed_by_ben checks_consumer any_proof "ben" roster "2026-01-02" "r1"
        finished_task empty_ledger in
    All
      (λ s.
        IsIssued signed_by_ben checks_consumer any_proof "ben" "2026-01-02" finished_task after.0
          (receipt_of s))
      after.1
unfolding is_stored Dicts.get
issue_compute_receipt-IsIssued_example =
    issue_compute_receipt-IsIssued signed_by_ben checks_consumer any_proof "ben" roster "2026-01-02"
      "r1" finished_task empty_ledger
      (λ receipt own. ap (λ c. "ben" == c) own ∙ beq_refl {A = String} "ben")
      (ne_of_beq "ben" "" refl) (ne_of_beq "r1" "" refl) refl
