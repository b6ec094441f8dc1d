-- ===== src/Usage/Counted.antt =====
-- What one exchange adds to a counter over all groups, and to the sum of the summary of that name.
use nexus_grid_grid.Prelude.Dicts
use nexus_grid_grid.Prelude.{
  true, false, ◌≡◌, ◌≢◌, refl, sym, ap, List, [], ◌∷◌, String, Dict, if◌then◌else◌, ◌==◌, text_key,
  nat_eq, pair_key, arith, inl, inr, Bool-cases, contains, beq_comm, beq_false, ne_of_beq,
  eq_of_beq,
}
use nexus_grid_grid.Prelude.Int.{ℤ, pos, negsuc, ◌+ℤ◌, add_zero, zero_add, add_assoc}
use nexus_grid_grid.Usage.{
  Receipt, counted_fields, Counters, pending, accumulate, is_zero, record_delta, record_deltas,
  feed_counters, provided_deltas, consumed_deltas, bucket_gid,
}
use nexus_grid_grid.Usage.Shares.{pending-accumulate, pending-empty}
use nexus_grid_grid.Usage.Summary.{value, add_to, add_provided, add_consumed}

-- Nobody provides to themselves, and no group has the name that the total over all groups is under.
pub record IsExchange (receipt : Receipt) : Type 0 where
  pub apart : receipt.provider_pubkey ≢ receipt.consumer_pubkey
  pub grouped : receipt.group_id ≢ "*"

-- The amounts that a list of deltas gives a column.
pub share_of : String → List (String × ℤ) → ℤ
share_of f [] = pos 0
share_of f ((g, v) ∷ deltas) = let rest = share_of f deltas in if g == f then v +ℤ rest else rest

is_zero_value : (v : ℤ) → is_zero v ≡ true → v ≡ pos 0
unfolding is_zero
is_zero_value (pos n) h = ground arith
is_zero_value (negsuc n) h = ground arith

pending_total-record_delta :
    (group_id : String) (g f : String) (v : ℤ) (counters : Counters)
    → group_id ≢ "*"
    → pending ("*", f) (record_delta group_id g v counters)
      ≡ (if g == f then pending ("*", f) counters +ℤ v else pending ("*", f) counters)
unfolding record_delta
pending_total-record_delta group_id g f v counters n = elim (Bool-cases (is_zero v)) [
  | inl e ↦ rw (e, is_zero_value v e) (ground (arith, add_zero (pending ("*", f) counters)))
  | inr e ↦ rw e (
      ground (
        arith,
        beq_false group_id "*" n,
        pending-accumulate ("*", g) ("*", f) v (accumulate (group_id, g) v counters),
        pending-accumulate (group_id, g) ("*", f) v counters,
      ))
]

pending_total-record_deltas :
    (group_id : String) (deltas : List (String × ℤ)) (f : String) (counters : Counters)
    → group_id ≢ "*"
    → group_id ≢ ""
    → pending ("*", f) (record_deltas group_id deltas counters)
      ≡ pending ("*", f) counters +ℤ share_of f deltas
unfolding record_deltas share_of
pending_total-record_deltas group_id [] f counters n m = sym (add_zero (pending ("*", f) counters))
pending_total-record_deltas group_id ((g, v) ∷ deltas) f counters n m = ground (
  arith,
  beq_false group_id "" m,
  pending_total-record_deltas group_id deltas f (record_delta group_id g v counters) n m,
  pending_total-record_delta group_id g f v counters n,
  add_assoc (pending ("*", f) counters) v (share_of f deltas),
)

-- What an exchange counts for this node in a column.
unfoldable pub mine : String → String → Receipt → ℤ
mine me f r =
    if r.provider_pubkey == me
    then share_of f (provided_deltas r)
    else if r.consumer_pubkey == me
    then share_of f (consumed_deltas r)
    else pos 0

bucket_gid_named : (r : Receipt) → r.group_id ≢ "*" → (bucket_gid r ≢ "*") × (bucket_gid r ≢ "")
unfolding bucket_gid
bucket_gid_named r n = elim (Bool-cases (r.group_id == "")) [
  | inl e ↦ rw e (ne_of_beq "peer" "*" refl, ne_of_beq "peer" "" refl)
  | inr e ↦ rw e (n, ne_of_beq r.group_id "" e)
]

pub pending_total-feed_counters :
    (me : String) (r : Receipt) (f : String)
    → IsExchange r
    → pending ("*", f) (feed_counters me r []) ≡ mine me f r
unfolding feed_counters mine
pending_total-feed_counters me r f h =
    let named = bucket_gid_named r h.grouped in
    ground (
      arith,
      pending_total-record_deltas (bucket_gid r) (provided_deltas r) f [] named.0 named.1,
      pending_total-record_deltas (bucket_gid r) (consumed_deltas r) f [] named.0 named.1,
      pending-empty ("*", f),
      zero_add (share_of f (provided_deltas r)),
      zero_add (share_of f (consumed_deltas r)),
      ap (λ k. k == r.consumer_pubkey) (eq_of_beq r.provider_pubkey me _),
      beq_false r.provider_pubkey r.consumer_pubkey h.apart,
      eq_of_beq r.consumer_pubkey me,
    )

value-add_to :
    (j key : String) (v : ℤ) (out : Dict String ℤ)
    → value key (add_to j v out) ≡ (if j == key then value key out +ℤ v else value key out)
unfolding value add_to
value-add_to j key v out = ground (
  arith,
  Dicts.get-insert j key (value j out +ℤ v) out,
  ap (λ k. value k out) (eq_of_beq j key _),
)

-- A sum that is no counted column.
value-add_other :
    (key f : String) (v : ℤ) (out : Dict String ℤ)
    → (key == f) ≡ false
    → value f (add_to key v out) ≡ value f out +ℤ pos 0
value-add_other key f v out n = ground (arith, value-add_to key f v out, add_zero (value f out))

value-add_one :
    (g f : String) (v : ℤ) (out : Dict String ℤ)
    → value f (add_to g v out) ≡ value f out +ℤ share_of f ((g, v) ∷ [])
unfolding share_of
value-add_one g f v out = ground (arith, value-add_to g f v out, add_zero (value f out), add_zero v)

value-add_two :
    (g h f : String) (v w : ℤ) (out : Dict String ℤ)
    → (g == h) ≡ false
    → value f (add_to g v (add_to h w out)) ≡ value f out +ℤ share_of f ((g, v) ∷ (h, w) ∷ [])
unfolding share_of
value-add_two g h f v w out n = ground (
  arith,
  value-add_to g f v (add_to h w out),
  value-add_to h f w out,
  add_zero (value f out),
  add_zero v,
  add_zero w,
  ap (λ k. k == h) (eq_of_beq g f _),
  beq_comm h f,
)

pub contains_apart :
    (xs : List String) (key f : String)
    → contains xs key ≡ false
    → contains xs f ≡ true
    → (key == f) ≡ false
contains_apart xs key f n h = beq_false key f (λ p. ground (arith, ap (λ k. contains xs k) p))

pub value-add_provided :
    (f : String) (r : Receipt) (out : Dict String ℤ)
    → contains counted_fields f ≡ true
    → value f (add_provided r out) ≡ value f out +ℤ share_of f (provided_deltas r)
unfolding add_provided provided_deltas share_of counted_fields
value-add_provided f r out h = ground (
  arith,
  value-add_two "tasks_contributed" "compute_secs_contributed" f (pos 1) r.amount out refl,
  value-add_one "storage_bytes_hosted" f r.amount out,
  value-add_other "service_secs_served" f r.amount out
      (contains_apart counted_fields "service_secs_served" f refl h),
  value-add_other "service_bytes_served" f r.amount out
      (contains_apart counted_fields "service_bytes_served" f refl h),
  add_zero (value f out),
)

pub value-add_consumed :
    (f : String) (r : Receipt) (out : Dict String ℤ)
    → contains counted_fields f ≡ true
    → value f (add_consumed r out) ≡ value f out +ℤ share_of f (consumed_deltas r)
unfolding add_consumed consumed_deltas share_of counted_fields
value-add_consumed f r out h = ground (
  arith,
  value-add_two "tasks_consumed" "compute_secs_consumed" f (pos 1) r.amount out refl,
  value-add_one "storage_bytes_used" f r.amount out,
  value-add_other "service_secs_used" f r.amount out
      (contains_apart counted_fields "service_secs_used" f refl h),
  value-add_other "service_bytes_used" f r.amount out
      (contains_apart counted_fields "service_bytes_used" f refl h),
  add_zero (value f out),
)
