-- ===== src/Usage/Once.antt =====
-- A receipt that was applied, and the later deliveries under its id.
use nexus_grid_grid.Prelude.Dicts
use nexus_grid_grid.Prelude.{
  Bool, true, false, ◌≡◌, List, [], ◌∷◌, String, text_key, nat_eq, pair_key, arith,
}
use nexus_grid_grid.Usage.{
  Receipt, Ledger, row_of, is_stored, apply_new, Delivery, store_and_apply, deliver_all,
}
use nexus_grid_grid.Usage.Steps.{is_stored-exchange_at, step, exchange_at-step}

module _ (verify : Receipt → String → Bool) (me : String) where
  is_stored-step :
      (r : String) (d : Delivery) (ledger : Ledger)
      → is_stored r ledger ≡ true
      → is_stored r (step verify me d ledger) ≡ true
  is_stored-step r d ledger h = ground (
    arith,
    is_stored-exchange_at r ledger,
    is_stored-exchange_at r (step verify me d ledger),
    exchange_at-step verify me r d ledger,
  )

  is_stored-deliver_all :
      (r : String) (ds : List Delivery) (ledger : Ledger)
      → is_stored r ledger ≡ true
      → is_stored r (deliver_all verify me ds ledger) ≡ true
  unfolding deliver_all step
  is_stored-deliver_all r [] ledger h = h
  is_stored-deliver_all r (d ∷ ds) ledger h =
      is_stored-deliver_all r ds (step verify me d ledger) (is_stored-step r d ledger h)

  is_stored-applied :
      (d : Delivery) (ledger : Ledger)
      → (store_and_apply verify me d ledger).1 ≡ true
      → is_stored d.receipt.receipt_id (step verify me d ledger) ≡ true
  unfolding step store_and_apply is_stored apply_new
  is_stored-applied d ledger h = ground (
    arith,
    Dicts.get-insert_self d.receipt.receipt_id (row_of d.at d.receipt d.sig) ledger.receipts,
  )

  refused_when_stored :
      (e : Delivery) (ledger : Ledger)
      → is_stored e.receipt.receipt_id ledger ≡ true
      → store_and_apply verify me e ledger ≡ (ledger, false)
  unfolding store_and_apply
  refused_when_stored e ledger h = ground arith

  -- Once a receipt was applied, every later delivery under its id, after whatever else arrived, is
  -- refused and leaves the ledger as it is.
  pub store_and_apply_once :
      (d e : Delivery) (ds : List Delivery) (ledger : Ledger)
      → (store_and_apply verify me d ledger).1 ≡ true
      → e.receipt.receipt_id ≡ d.receipt.receipt_id
      → store_and_apply verify me e (deliver_all verify me (d ∷ ds) ledger)
        ≡ (deliver_all verify me (d ∷ ds) ledger, false)
  unfolding deliver_all step
  store_and_apply_once d e ds ledger h p =
      refused_when_stored e (deliver_all verify me ds (step verify me d ledger)) (
        rw p (
          is_stored-deliver_all d.receipt.receipt_id ds (step verify me d ledger)
            (is_stored-applied d ledger h)))
