-- ===== src/Usage/Rebuilt.antt =====
-- The counters that the receipts feed one by one, and the summary rebuilt from the table.
use nexus_grid_grid.Prelude.Dicts
use nexus_grid_grid.Prelude.{
  Bool, true, false, ◌≡◌, refl, sym, ap, ◌∙◌, List, [], ◌∷◌, none, String, Dict, ◌==◌, text_key,
  nat_eq, pair_key, arith, inl, inr, Bool-cases, map, select, All, contains, length,
}
use nexus_grid_grid.Prelude.Int.{ℤ, pos, ◌+ℤ◌, add_zero, zero_add, add_assoc}
use nexus_grid_grid.Usage.{
  Receipt, UsageReceipt, Ledger, empty_ledger, counted_fields, pending, provided_deltas,
  consumed_deltas, row_of, is_stored, apply_new, Delivery, is_acceptable, store_and_apply,
  deliver_all,
}
use nexus_grid_grid.Usage.Shares.{feed_counters-IsShift, pending-empty}
use nexus_grid_grid.Usage.Summary.{
  Summary, value, count_row, count_rows, is_mine, empty_summary, finish, global_usage_summary,
}
use nexus_grid_grid.Usage.Counted.{
  IsExchange, mine, pending_total-feed_counters, value-add_provided, value-add_consumed,
  contains_apart,
}

module _ (me f : String) where
  sum_mine : List Receipt → ℤ
  sum_mine [] = pos 0
  sum_mine (r ∷ rs) = mine me f r +ℤ sum_mine rs

  value-count_row :
      (r : Receipt) (s : Summary)
      → contains counted_fields f ≡ true
      → is_mine me r ≡ true
      → value f (count_row me r s).out ≡ value f s.out +ℤ mine me f r
  unfolding count_row mine is_mine
  value-count_row r s h m = elim (Bool-cases (r.provider_pubkey == me)) [
    | inl e ↦ rw e (value-add_provided f r s.out h)
    | inr e ↦ ground (arith, value-add_consumed f r s.out h)
  ]

  mine_none : (r : Receipt) → is_mine me r ≡ false → mine me f r ≡ pos 0
  unfolding mine is_mine
  mine_none r m = ground arith

  value-count_rows :
      (rs : List Receipt) (s : Summary)
      → contains counted_fields f ≡ true
      → value f (count_rows me (select (is_mine me) rs) s).out ≡ value f s.out +ℤ sum_mine rs
  unfolding count_rows sum_mine
  value-count_rows [] s h = sym (add_zero (value f s.out))
  value-count_rows (r ∷ rs) s h = elim (Bool-cases (is_mine me r)) [
    | inl e ↦ rw e (
        value-count_rows rs (count_row me r s) h
        ∙ ap (λ x. x +ℤ sum_mine rs) (value-count_row r s h e)
        ∙ add_assoc (value f s.out) (mine me f r) (sum_mine rs))
    | inr e ↦ rw e (
        value-count_rows rs s h
        ∙ ap (λ x. value f s.out +ℤ x)
            (sym (ap (λ x. x +ℤ sum_mine rs) (mine_none r e) ∙ zero_add (sum_mine rs))))
  ]

  value-finish :
      (s : Summary) → contains counted_fields f ≡ true → value f (finish s) ≡ value f s.out
  unfolding finish value counted_fields
  value-finish s h = ground (
    arith,
    Dicts.get-insert "service_users" f (pos (length s.service_users)) (
        Dicts.insert "peers_used" (pos (length s.used))
          (Dicts.insert "peers_helped" (pos (length s.helped)) s.out)),
    Dicts.get-insert "peers_used" f (pos (length s.used))
        (Dicts.insert "peers_helped" (pos (length s.helped)) s.out),
    Dicts.get-insert "peers_helped" f (pos (length s.helped)) s.out,
    contains_apart counted_fields "service_users" f refl h,
    contains_apart counted_fields "peers_used" f refl h,
    contains_apart counted_fields "peers_helped" f refl h,
  )

  abbrev bodies : Dict String UsageReceipt → List Receipt
  bodies rows = map (λ entry. entry.1.body) rows

  sum_mine-insert :
      (key : String) (row : UsageReceipt) (rows : Dict String UsageReceipt)
      → Dicts.get key rows ≡ none
      → sum_mine (bodies (Dicts.insert key row rows)) ≡ sum_mine (bodies rows) +ℤ mine me f row.body
  unfolding Dicts.get Dicts.insert sum_mine
  sum_mine-insert key row [] h =
      ground (arith, add_zero (mine me f row.body), zero_add (mine me f row.body))
  sum_mine-insert key row ((j, other) ∷ rows) h = ground (
    arith,
    sum_mine-insert key row rows,
    add_assoc (mine me f other.body) (sum_mine (bodies rows)) (mine me f row.body),
  )

  -- The counter of the column over all groups is the sum over the stored exchanges.
  IsMirrored : Ledger → Type 0
  IsMirrored ledger = pending ("*", f) ledger.counters ≡ sum_mine (bodies ledger.receipts)

  mine-row_of : (now sig : String) (r : Receipt) → mine me f (row_of now r sig).body ≡ mine me f r
  unfolding row_of mine provided_deltas consumed_deltas
  mine-row_of now sig r = refl

  apply_new-IsMirrored :
      (now sig : String) (r : Receipt) (ledger : Ledger)
      → is_stored r.receipt_id ledger ≡ false
      → IsExchange r
      → IsMirrored ledger
      → IsMirrored (apply_new me now r sig ledger)
  unfolding apply_new is_stored IsMirrored
  apply_new-IsMirrored now sig r ledger fresh h m = ground (
    arith,
    (feed_counters-IsShift me r).shifts ("*", f) ledger.counters,
    pending_total-feed_counters me r f h,
    sum_mine-insert r.receipt_id (row_of now r sig) ledger.receipts,
    mine-row_of now sig r,
  )

  value_empty : contains counted_fields f ≡ true → value f empty_summary.out ≡ pos 0
  unfolding value empty_summary counted_fields Dicts.get
  value_empty h = ground arith

  value-global_usage_summary :
      (ledger : Ledger)
      → contains counted_fields f ≡ true
      → IsMirrored ledger
      → value f (global_usage_summary me ledger) ≡ pending ("*", f) ledger.counters
  unfolding global_usage_summary IsMirrored
  value-global_usage_summary ledger h m =
      value-finish (count_rows me (select (is_mine me) (bodies ledger.receipts)) empty_summary) h
      ∙ value-count_rows (bodies ledger.receipts) empty_summary h
      ∙ ap (λ x. x +ℤ sum_mine (bodies ledger.receipts)) (value_empty h)
      ∙ zero_add (sum_mine (bodies ledger.receipts))
      ∙ sym m

  module _ (verify : Receipt → String → Bool) where
    store_and_apply-IsMirrored :
        (d : Delivery) (ledger : Ledger)
        → IsExchange d.receipt
        → IsMirrored ledger
        → IsMirrored (store_and_apply verify me d ledger).0
    unfolding store_and_apply
    store_and_apply-IsMirrored d ledger h m = elim (Bool-cases (is_acceptable verify me d)) [
      | inr e ↦ rw e m
      | inl e ↦ rw e (elim (Bool-cases (is_stored d.receipt.receipt_id ledger)) [
        | inl s ↦ rw s m
        | inr s ↦ rw s (apply_new-IsMirrored d.at d.sig d.receipt ledger s h m)
      ])
    ]

    deliver_all-IsMirrored :
        (ds : List Delivery) (ledger : Ledger)
        → All (λ d. IsExchange d.receipt) ds
        → IsMirrored ledger
        → IsMirrored (deliver_all verify me ds ledger)
    unfolding deliver_all
    deliver_all-IsMirrored [] ledger h m = m
    deliver_all-IsMirrored (d ∷ ds) ledger h m =
        deliver_all-IsMirrored ds (store_and_apply verify me d ledger).0 h.1
          (store_and_apply-IsMirrored d ledger h.0 m)

-- For each counted column, what the receipts fed one by one, refused and repeated ones among them,
-- add up to in the counter over all groups is the sum of that name in the summary rebuilt from the
-- table, provided no receipt has one party on both sides and no group is named `*`.
pub global_usage_summary_rebuilt :
    (verify : Receipt → String → Bool) (me f : String) (ds : List Delivery)
    → contains counted_fields f ≡ true
    → All (λ d. IsExchange d.receipt) ds
    → value f (global_usage_summary me (deliver_all verify me ds empty_ledger))
      ≡ pending ("*", f) (deliver_all verify me ds empty_ledger).counters
unfolding IsMirrored sum_mine
global_usage_summary_rebuilt verify me f ds known h =
    value-global_usage_summary me f (deliver_all verify me ds empty_ledger) known
      (deliver_all-IsMirrored me f verify ds empty_ledger h (pending-empty ("*", f)))
