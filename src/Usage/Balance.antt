-- ===== src/Usage/Balance.antt =====
-- The totals of the members, and those that the stored receipts give.
use nexus_grid_grid.Prelude.Dicts
use nexus_grid_grid.Prelude.{
  ℕ, ◌+◌, Bool, false, ◌≡◌, refl, List, [], ◌∷◌, none, String, Dict, text_key, nat_eq, pair_key,
  arith, inl, inr, Bool-cases,
}
use nexus_grid_grid.Usage.{
  Receipt, UsageReceipt, Ledger, row_of, is_stored, apply_new, Delivery, is_acceptable,
  store_and_apply, deliver_all,
}
use nexus_grid_grid.Usage.Shares.{
  contributed_by, consumed_by, contributed_share, consumed_share, contributed_by-bump_members,
  consumed_by-bump_members,
}

-- The sum over the rows of a table.
abbrev pub total : (UsageReceipt → ℕ) → Dict String UsageReceipt → ℕ
total f [] = 0
total f ((key, row) ∷ rows) = f row + total f rows

total-insert :
    (f : UsageReceipt → ℕ) (key : String) (row : UsageReceipt) (rows : Dict String UsageReceipt)
    → Dicts.get key rows ≡ none
    → total f (Dicts.insert key row rows) ≡ total f rows + f row
unfolding Dicts.get Dicts.insert
total-insert f key row [] h = ground arith
total-insert f key row ((j, other) ∷ rows) h = ground (arith, total-insert f key row rows)

-- Each member's totals are the number of stored compute exchanges of the group that the member
-- provided, and that it consumed.
pub record IsBalanced (ledger : Ledger) : Type 0 where
  pub contributed :
      (key : String × String)
      → contributed_by key ledger.stats
        ≡ total (λ row. contributed_share key row.body) ledger.receipts
  pub consumed :
      (key : String × String)
      → consumed_by key ledger.stats ≡ total (λ row. consumed_share key row.body) ledger.receipts

share-row_of :
    (key : String × String) (now : String) (receipt : Receipt) (sig : String)
    → (contributed_share key (row_of now receipt sig).body ≡ contributed_share key receipt)
      × (consumed_share key (row_of now receipt sig).body ≡ consumed_share key receipt)
unfolding row_of contributed_share consumed_share
share-row_of key now receipt sig = (refl, refl)

apply_new-IsBalanced :
    (me now sig : String) (receipt : Receipt) (ledger : Ledger)
    → is_stored receipt.receipt_id ledger ≡ false
    → IsBalanced ledger
    → IsBalanced (apply_new me now receipt sig ledger)
unfolding apply_new is_stored
apply_new-IsBalanced me now sig receipt ledger fresh h = record {
  contributed = λ key. ground (
    arith,
    contributed_by-bump_members now key receipt ledger.stats,
    total-insert (λ row. contributed_share key row.body) receipt.receipt_id (row_of now receipt sig)
        ledger.receipts,
    share-row_of key now receipt sig,
    h.contributed key,
  );
  consumed = λ key. ground (
    arith,
    consumed_by-bump_members now key receipt ledger.stats,
    total-insert (λ row. consumed_share key row.body) receipt.receipt_id (row_of now receipt sig)
        ledger.receipts,
    share-row_of key now receipt sig,
    h.consumed key,
  );
}

module _ (verify : Receipt → String → Bool) (me : String) where
  store_and_apply-IsBalanced :
      (d : Delivery) (ledger : Ledger)
      → IsBalanced ledger
      → IsBalanced (store_and_apply verify me d ledger).0
  unfolding store_and_apply
  store_and_apply-IsBalanced d ledger h = elim (Bool-cases (is_acceptable verify me d)) [
    | inr e ↦ rw e h
    | inl e ↦ rw e (elim (Bool-cases (is_stored d.receipt.receipt_id ledger)) [
      | inl s ↦ rw s h
      | inr s ↦ rw s (apply_new-IsBalanced me d.at d.sig d.receipt ledger s h)
    ])
  ]

  -- Whatever receipts arrive, good or bad, new or repeated, the totals of every member stay those
  -- that the stored receipts give.
  pub deliver_all-IsBalanced :
      (ds : List Delivery) (ledger : Ledger)
      → IsBalanced ledger
      → IsBalanced (deliver_all verify me ds ledger)
  unfolding deliver_all
  deliver_all-IsBalanced [] ledger h = h
  deliver_all-IsBalanced (d ∷ ds) ledger h =
      deliver_all-IsBalanced ds (store_and_apply verify me d ledger).0
        (store_and_apply-IsBalanced d ledger h)
