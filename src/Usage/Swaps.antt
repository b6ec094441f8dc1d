-- ===== src/Usage/Swaps.antt =====
-- Two deliveries in either order.
use nexus_grid_grid.Prelude.{
  Bool, true, false, ◌≡◌, ap, [], String, ◌==◌, text_key, nat_eq, pair_key, arith, inl, inr,
  Bool-cases, eq_of_beq, beq_comm,
}
use nexus_grid_grid.Prelude.Int.{add_swap}
use nexus_grid_grid.Usage.{Receipt, Ledger, pending, feed_counters, is_stored, Delivery}
use nexus_grid_grid.Usage.Steps.{
  untimed, SameLedger, step, exchange_at-step, contributed_by-step, consumed_by-step, pending-step,
  is_counted-step,
}
use nexus_grid_grid.Usage.Shares.{contributed_share, consumed_share}

-- No two receipts share an id.
abbrev pub Agree : Delivery → Delivery → Type 0
Agree d e = d.receipt.receipt_id ≡ e.receipt.receipt_id → d.receipt ≡ e.receipt

module _ (verify : Receipt → String → Bool) (me : String) where
  swap_apart :
      (d e : Delivery) (ledger : Ledger)
      → (d.receipt.receipt_id == e.receipt.receipt_id) ≡ false
      → SameLedger
          (step verify me e (step verify me d ledger))
          (step verify me d (step verify me e ledger))
  swap_apart d e a n =
      let de = is_counted-step verify me d e a in
      let ed = is_counted-step verify me e d a in
      let apart = beq_comm d.receipt.receipt_id e.receipt.receipt_id in
      record {
        exchanges = λ r. ground (
          arith,
          n,
          de,
          ed,
          apart,
          exchange_at-step verify me r e (step verify me d a),
          exchange_at-step verify me r d a,
          exchange_at-step verify me r d (step verify me e a),
          exchange_at-step verify me r e a,
          eq_of_beq d.receipt.receipt_id r,
          ap (λ s. s == e.receipt.receipt_id) (eq_of_beq d.receipt.receipt_id r _),
          beq_comm e.receipt.receipt_id r,
        );
        contributed = λ k. ground (
          arith,
          n,
          de,
          ed,
          apart,
          contributed_by-step verify me k e (step verify me d a),
          contributed_by-step verify me k d a,
          contributed_by-step verify me k d (step verify me e a),
          contributed_by-step verify me k e a,
        );
        consumed = λ k. ground (
          arith,
          n,
          de,
          ed,
          apart,
          consumed_by-step verify me k e (step verify me d a),
          consumed_by-step verify me k d a,
          consumed_by-step verify me k d (step verify me e a),
          consumed_by-step verify me k e a,
        );
        counted = λ k. ground (
          arith,
          n,
          de,
          ed,
          apart,
          pending-step verify me k e (step verify me d a),
          pending-step verify me k d a,
          pending-step verify me k d (step verify me e a),
          pending-step verify me k e a,
          add_swap (pending k a.counters) (pending k (feed_counters me d.receipt []))
              (pending k (feed_counters me e.receipt [])),
        );
      }

  swap_together :
      (d e : Delivery) (ledger : Ledger)
      → (d.receipt.receipt_id == e.receipt.receipt_id) ≡ true
      → d.receipt ≡ e.receipt
      → SameLedger
          (step verify me e (step verify me d ledger))
          (step verify me d (step verify me e ledger))
  swap_together d e a n p =
      let de = is_counted-step verify me d e a in
      let ed = is_counted-step verify me e d a in
      let together = beq_comm d.receipt.receipt_id e.receipt.receipt_id in
      let stored = ap (λ r. is_stored r.receipt_id a) p in
      record {
        exchanges = λ r. ground (
          arith,
          n,
          de,
          ed,
          together,
          stored,
          ap untimed p,
          exchange_at-step verify me r e (step verify me d a),
          exchange_at-step verify me r d a,
          exchange_at-step verify me r d (step verify me e a),
          exchange_at-step verify me r e a,
          ap (λ x. x.receipt_id == r) p,
        );
        contributed = λ k. ground (
          arith,
          n,
          de,
          ed,
          together,
          stored,
          ap (contributed_share k) p,
          contributed_by-step verify me k e (step verify me d a),
          contributed_by-step verify me k d a,
          contributed_by-step verify me k d (step verify me e a),
          contributed_by-step verify me k e a,
        );
        consumed = λ k. ground (
          arith,
          n,
          de,
          ed,
          together,
          stored,
          ap (consumed_share k) p,
          consumed_by-step verify me k e (step verify me d a),
          consumed_by-step verify me k d a,
          consumed_by-step verify me k d (step verify me e a),
          consumed_by-step verify me k e a,
        );
        counted = λ k. ground (
          arith,
          n,
          de,
          ed,
          together,
          stored,
          ap (λ r. pending k (feed_counters me r [])) p,
          pending-step verify me k e (step verify me d a),
          pending-step verify me k d a,
          pending-step verify me k d (step verify me e a),
          pending-step verify me k e a,
        );
      }

  pub swap_steps :
      (d e : Delivery) (ledger : Ledger)
      → Agree d e
      → SameLedger
          (step verify me e (step verify me d ledger))
          (step verify me d (step verify me e ledger))
  swap_steps d e a agree = elim (Bool-cases (d.receipt.receipt_id == e.receipt.receipt_id)) [
    | inl n ↦ swap_together d e a n (agree (eq_of_beq d.receipt.receipt_id e.receipt.receipt_id n))
    | inr n ↦ swap_apart d e a n
  ]
  -- The ledger that deliveries lead to depends only on what was counted before.
