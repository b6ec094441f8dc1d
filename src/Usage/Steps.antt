-- ===== src/Usage/Steps.antt =====
-- What one delivery changes of what a ledger counts.
use mathlib.Core.Option
use nexus_grid_grid.Prelude.Dicts
use nexus_grid_grid.Prelude.{
  ◌+◌, Bool, true, false, not, ◌&&◌, ◌≡◌, refl, ◌∙◌, [], Option, none, some, String, if◌then◌else◌,
  ◌==◌, text_key, nat_eq, pair_key, arith,
}
use nexus_grid_grid.Prelude.Int.{◌+ℤ◌}
use nexus_grid_grid.Usage.{
  Receipt, Ledger, pending, feed_counters, row_of, is_stored, apply_new, Delivery, is_acceptable,
  store_and_apply,
}
use nexus_grid_grid.Usage.Shares.{
  feed_counters-IsShift, contributed_by, consumed_by, contributed_share, consumed_share,
  contributed_by-bump_members, consumed_by-bump_members,
}

-- A receipt without the time stamp, which a node fills in when it is missing.
abbrev pub untimed : Receipt → Receipt
untimed receipt = record receipt { ts = "" }

unfoldable pub exchange_at : String → Ledger → Option Receipt
exchange_at receipt_id ledger =
    Option.map (λ row. untimed row.body) (Dicts.get receipt_id ledger.receipts)

-- Two ledgers that count the same: the exchanges stored under each id, the totals of each member,
-- and the counters. Time stamps and signatures are left aside.
pub record SameLedger (a b : Ledger) : Type 0 where
  pub exchanges : (receipt_id : String) → exchange_at receipt_id a ≡ exchange_at receipt_id b
  pub contributed :
      (key : String × String) → contributed_by key a.stats ≡ contributed_by key b.stats
  pub consumed : (key : String × String) → consumed_by key a.stats ≡ consumed_by key b.stats
  pub counted : (key : String × String) → pending key a.counters ≡ pending key b.counters

pub SameLedger-refl : (a : Ledger) → SameLedger a a
SameLedger-refl a = record {
  exchanges = λ r. refl;
  contributed = λ k. refl;
  consumed = λ k. refl;
  counted = λ k. refl;
}

pub SameLedger-trans : {a b c : Ledger} → SameLedger a b → SameLedger b c → SameLedger a c
SameLedger-trans p q = record {
  exchanges = λ r. p.exchanges r ∙ q.exchanges r;
  contributed = λ k. p.contributed k ∙ q.contributed k;
  consumed = λ k. p.consumed k ∙ q.consumed k;
  counted = λ k. p.counted k ∙ q.counted k;
}

pub is_stored-exchange_at :
    (r : String) (ledger : Ledger)
    → is_stored r ledger ≡ (elim (exchange_at r ledger) [ none ↦ false | some x ↦ true ])
unfolding is_stored exchange_at
is_stored-exchange_at r ledger = ground arith

module _ (verify : Receipt → String → Bool) (me : String) where
  -- The receipt is good and new.
  abbrev pub is_counted : Delivery → Ledger → Bool
  is_counted d ledger = is_acceptable verify me d && not (is_stored d.receipt.receipt_id ledger)

  unfoldable pub step : Delivery → Ledger → Ledger
  step d ledger = (store_and_apply verify me d ledger).0

  pub exchange_at-step :
      (r : String) (d : Delivery) (ledger : Ledger)
      → exchange_at r (step d ledger) ≡ (
          if is_counted d ledger && (d.receipt.receipt_id == r)
          then some (untimed d.receipt)
          else exchange_at r ledger)
  unfolding step store_and_apply exchange_at apply_new row_of
  exchange_at-step r d ledger =
      ground (
        arith,
        Dicts.get-insert d.receipt.receipt_id r (row_of d.at d.receipt d.sig) ledger.receipts,
      )

  pub contributed_by-step :
      (key : String × String) (d : Delivery) (ledger : Ledger)
      → contributed_by key (step d ledger).stats ≡ (
          if is_counted d ledger
          then contributed_by key ledger.stats + contributed_share key d.receipt
          else contributed_by key ledger.stats)
  unfolding step store_and_apply apply_new
  contributed_by-step key d ledger =
      ground (arith, contributed_by-bump_members d.at key d.receipt ledger.stats)

  pub consumed_by-step :
      (key : String × String) (d : Delivery) (ledger : Ledger)
      → consumed_by key (step d ledger).stats ≡ (
          if is_counted d ledger
          then consumed_by key ledger.stats + consumed_share key d.receipt
          else consumed_by key ledger.stats)
  unfolding step store_and_apply apply_new
  consumed_by-step key d ledger =
      ground (arith, consumed_by-bump_members d.at key d.receipt ledger.stats)

  pub pending-step :
      (key : String × String) (d : Delivery) (ledger : Ledger)
      → pending key (step d ledger).counters ≡ (
          if is_counted d ledger
          then pending key ledger.counters +ℤ pending key (feed_counters me d.receipt [])
          else pending key ledger.counters)
  unfolding step store_and_apply apply_new
  pending-step key d ledger =
      ground (arith, (feed_counters-IsShift me d.receipt).shifts key ledger.counters)

  pub is_counted-same :
      (d : Delivery) (a b : Ledger) → SameLedger a b → is_counted d a ≡ is_counted d b
  is_counted-same d a b h = ground (
    arith,
    is_stored-exchange_at d.receipt.receipt_id a,
    is_stored-exchange_at d.receipt.receipt_id b,
    h.exchanges d.receipt.receipt_id,
  )

  -- What a receipt does depends only on what the ledger counts.
  pub step-same : (d : Delivery) (a b : Ledger) → SameLedger a b → SameLedger (step d a) (step d b)
  step-same d a b h =
      let counted = is_counted-same d a b h in
      record {
        exchanges = λ r.
            ground (arith, counted, exchange_at-step r d a, exchange_at-step r d b, h.exchanges r);
        contributed = λ k.
            ground (
              arith,
              counted,
              contributed_by-step k d a,
              contributed_by-step k d b,
              h.contributed k,
            );
        consumed = λ k.
            ground (arith, counted, consumed_by-step k d a, consumed_by-step k d b, h.consumed k);
        counted = λ k. ground (arith, counted, pending-step k d a, pending-step k d b, h.counted k);
      }

  -- A receipt is counted after another exactly if it is good, was not stored, and is not the other.
  pub is_counted-step :
      (d e : Delivery) (ledger : Ledger)
      → is_counted e (step d ledger) ≡ (
          is_counted e ledger
          && not (is_counted d ledger && (d.receipt.receipt_id == e.receipt.receipt_id)))
  is_counted-step d e ledger = ground (
    arith,
    is_stored-exchange_at e.receipt.receipt_id (step d ledger),
    is_stored-exchange_at e.receipt.receipt_id ledger,
    exchange_at-step e.receipt.receipt_id d ledger,
  )
