-- ===== src/Usage/Convergence.antt =====
-- The ledgers after the same deliveries in another order, or with some of them made again.
use nexus_grid_grid.Prelude.Dicts
use nexus_grid_grid.Prelude.{Bool, ◌≡◌, List, [], ◌∷◌, String, text_key, nat_eq, pair_key, arith}
use nexus_grid_grid.Usage.{
  Receipt, Ledger, row_of, is_stored, apply_new, Delivery, store_and_apply, deliver_all,
}
use nexus_grid_grid.Usage.Steps.{SameLedger, SameLedger-refl, SameLedger-trans, step, step-same}
use nexus_grid_grid.Usage.Swaps.{Agree, swap_steps}

-- The second list holds the deliveries of the first in another order, or some of them again.
pub data Redelivered : List Delivery → List Delivery → Type 0 where
  same_list : {ds : List Delivery} → Redelivered ds ds
  then_same :
      {d : Delivery} {ds es : List Delivery} → Redelivered ds es → Redelivered (d ∷ ds) (d ∷ es)
  swap_two :
      {d e : Delivery} {ds : List Delivery} → Agree d e → Redelivered (d ∷ e ∷ ds) (e ∷ d ∷ ds)
  again : {d : Delivery} {ds : List Delivery} → Redelivered (d ∷ ds) (d ∷ d ∷ ds)
  followed_by :
      {ds es fs : List Delivery} → Redelivered ds es → Redelivered es fs → Redelivered ds fs

module _ (verify : Receipt → String → Bool) (me : String) where
  deliver_all-same :
      (ds : List Delivery) (a b : Ledger)
      → SameLedger a b
      → SameLedger (deliver_all verify me ds a) (deliver_all verify me ds b)
  unfolding deliver_all step
  deliver_all-same [] a b h = h
  deliver_all-same (d ∷ ds) a b h =
      deliver_all-same ds (step verify me d a) (step verify me d b) (step-same verify me d a b h)

  step-again :
      (d : Delivery) (ledger : Ledger)
      → step verify me d (step verify me d ledger) ≡ step verify me d ledger
  unfolding step store_and_apply is_stored apply_new
  step-again d ledger = ground (
    arith,
    Dicts.get-insert_self d.receipt.receipt_id (row_of d.at d.receipt d.sig) ledger.receipts,
  )

  -- Delivering receipts in another order, or some of them again, leads to a ledger that counts the
  -- same, provided no two receipts that change places share an id without being equal.
  pub deliver_all-Redelivered :
      {ds es : List Delivery} (ledger : Ledger)
      → Redelivered ds es
      → SameLedger (deliver_all verify me ds ledger) (deliver_all verify me es ledger)
  unfolding deliver_all step
  deliver_all-Redelivered ledger (same_list {ds}) =
      SameLedger-refl (deliver_all verify me ds ledger)
  deliver_all-Redelivered ledger (then_same {d} rest) =
      deliver_all-Redelivered (step verify me d ledger) rest
  deliver_all-Redelivered ledger (swap_two {d} {e} {ds} agree) =
      deliver_all-same ds (step verify me e (step verify me d ledger))
        (step verify me d (step verify me e ledger)) (swap_steps verify me d e ledger agree)
  deliver_all-Redelivered ledger (again {d} {ds}) =
      rw (step-again d ledger)
        (SameLedger-refl (deliver_all verify me ds (step verify me d ledger)))
  deliver_all-Redelivered ledger (followed_by first second) =
      SameLedger-trans (deliver_all-Redelivered ledger first)
        (deliver_all-Redelivered ledger second)
