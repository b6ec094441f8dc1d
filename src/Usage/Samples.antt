-- ===== src/Usage/Samples.antt =====
-- Receipts, deliveries and a roster for the tests.
use nexus_grid_grid.Prelude.{Bool, true, List, [], ◌∷◌, String, ◌==◌, text_key}
use nexus_grid_grid.Prelude.Int.{ℤ, pos}
use nexus_grid_grid.Usage.{Receipt, Delivery}
use nexus_grid_grid.Usage.Issue.{GroupMember, Finished}

abbrev pub compute_receipt : String → String → String → ℤ → Receipt
compute_receipt id provider consumer amount = record {
  receipt_id = id;
  group_id = "g";
  provider_pubkey = provider;
  consumer_pubkey = consumer;
  kind = "compute";
  ref_id = "t1";
  amount = amount;
  ts = "2026-01-01";
}

-- A stand-in for the signatures of one node, which has one key.
abbrev pub signed_by_ben : Receipt → String
signed_by_ben receipt = "ben"

abbrev pub checks_consumer : Receipt → String → Bool
checks_consumer receipt sig = sig == receipt.consumer_pubkey

abbrev pub any_proof : String → String → ℤ → String → Bool
any_proof task_id provider elapsed proof = true

abbrev pub first_delivery : Delivery
first_delivery = record {
  at = "2026-01-02";
  receipt = compute_receipt "r1" "anna" "ben" (pos 60);
  sig = "ben";
}

abbrev pub second_delivery : Delivery
second_delivery = record {
  at = "2026-01-03";
  receipt = compute_receipt "r2" "ben" "anna" (pos 5);
  sig = "anna";
}

abbrev pub roster : List GroupMember
roster = record { group_id = "g"; node_id = "w1"; pubkey = "anna"; peer_address = "10.0.0.2" } ∷ []

abbrev pub finished_task : Finished
finished_task = record {
  task_id = "t1";
  worker = "w1";
  target_groups = "g" ∷ [];
  elapsed_secs = pos 60;
  worker_pubkey = "";
  worker_proof = "";
}
