-- ===== src/Usage/Sampling.antt =====
-- The sampler of runtime/group_compute_telemetry.py: it drains the counters into the bucket of the
-- current hour. The rows are this node's hour buckets, by group and start, with the columns that are
-- not zero; grouping the deltas by row, so that each is fetched once, is left out.
use mathlib.Core.Option
use nexus_grid_grid.Prelude.Dicts
use nexus_grid_grid.Prelude.{
  ◌&&◌, ◌≡◌, refl, ap, List, [], ◌∷◌, String, Dict, if◌then◌else◌, ◌==◌, text_key, nat_eq, pair_key,
  arith, inl, inr, Bool-cases, eq_of_beq,
}
use nexus_grid_grid.Prelude.Int.{ℤ, pos, ◌+ℤ◌, add_zero}
use nexus_grid_grid.Usage.{
  Counters, pending, accumulate, is_zero, record_delta, record_deltas, feed_counters, bucket_gid,
  provided_deltas, consumed_deltas, Receipt,
}

-- A row's columns, and the rows by group and start.
abbrev pub BucketRow : Type 0
BucketRow = Dict String ℤ

abbrev pub Buckets : Type 0
Buckets = Dict (String × String) BucketRow

unfoldable pub column : String → BucketRow → ℤ
column field bucket = Option.get_or (Dicts.get field bucket) (pos 0)

-- The row that stands there, or a new one.
unfoldable pub bucket_at : String × String → Buckets → BucketRow
bucket_at key buckets = Option.get_or (Dicts.get key buckets) []

unfoldable pub add_to_bucket : String → ℤ → BucketRow → BucketRow
unfolding column
add_to_bucket field value bucket = Dicts.insert field (column field bucket +ℤ value) bucket

unfoldable pub write_deltas : String → Counters → Buckets → Buckets
unfolding bucket_at add_to_bucket
write_deltas start [] buckets = buckets
write_deltas start (((gid, field), value) ∷ snapshot) buckets =
    write_deltas start snapshot (
      Dicts.insert (gid, start) (add_to_bucket field value (bucket_at (gid, start) buckets))
        buckets)

unfoldable pub sum_values : Counters → ℤ
sum_values [] = pos 0
sum_values ((key, value) ∷ counters) = value +ℤ sum_values counters

-- The counters, the buckets and the number returned.
unfoldable pub sample_once : String → Counters → Buckets → Counters × Buckets × ℤ
unfolding write_deltas sum_values
sample_once start [] buckets = ([], buckets, pos 0)
sample_once start ((key, value) ∷ counters) buckets =
    ([], write_deltas start ((key, value) ∷ counters) buckets, sum_values ((key, value) ∷ counters))

-- What a bucket holds in a column.
unfoldable pub bucket_value : String × String → String → Buckets → ℤ
bucket_value key field buckets = column field (bucket_at key buckets)

bucket_value-write :
    (j key : String × String) (f field : String) (value : ℤ) (buckets : Buckets)
    → bucket_value key field (Dicts.insert j (add_to_bucket f value (bucket_at j buckets)) buckets)
      ≡ (if (j == key) && (f == field)
          then bucket_value key field buckets +ℤ value
          else bucket_value key field buckets)
unfolding bucket_value bucket_at add_to_bucket column
bucket_value-write j key f field value buckets = ground (
  arith,
  Dicts.get-insert j key (add_to_bucket f value (bucket_at j buckets)) buckets,
  ap (λ k. bucket_at k buckets) (eq_of_beq j key _),
  Dicts.get-insert f field (column f (bucket_at j buckets) +ℤ value) (bucket_at j buckets),
  ap (λ k. column k (bucket_at j buckets)) (eq_of_beq f field _),
)

write_deltas_value :
    (start gid t field : String) (snapshot : Counters) (buckets : Buckets)
    → Dicts.HasDistinctKeys snapshot
    → bucket_value (gid, t) field (write_deltas start snapshot buckets) ≡ (
        if start == t
        then bucket_value (gid, t) field buckets +ℤ pending (gid, field) snapshot
        else bucket_value (gid, t) field buckets)
unfolding write_deltas pending Dicts.get
write_deltas_value start gid t field [] buckets h =
    ground (arith, add_zero (bucket_value (gid, t) field buckets))
write_deltas_value start gid t field (((g, f), value) ∷ snapshot) buckets h =
    let key : String × String = (g, f) in
    let asked : String × String = (gid, field) in
    ground (
      arith,
      write_deltas_value start gid t field snapshot
          (Dicts.insert (g, start) (add_to_bucket f value (bucket_at (g, start) buckets)) buckets)
          h.1,
      bucket_value-write (g, start) (gid, t) f field value buckets,
      h.0,
      ap (λ k. Dicts.get k snapshot) (eq_of_beq key asked _),
      add_zero (bucket_value (gid, t) field buckets +ℤ value),
    )

accumulate-HasDistinctKeys :
    (key : String × String) (value : ℤ) (counters : Counters)
    → Dicts.HasDistinctKeys counters
    → Dicts.HasDistinctKeys (accumulate key value counters)
unfolding accumulate
accumulate-HasDistinctKeys key value counters h =
    Dicts.insert-HasDistinctKeys key (pending key counters +ℤ value) counters h

record_deltas-HasDistinctKeys :
    (gid : String) (deltas : List (String × ℤ)) (counters : Counters)
    → Dicts.HasDistinctKeys counters
    → Dicts.HasDistinctKeys (record_deltas gid deltas counters)
unfolding record_deltas record_delta accumulate
record_deltas-HasDistinctKeys gid [] counters h = h
record_deltas-HasDistinctKeys gid ((f, v) ∷ deltas) counters h = elim (Bool-cases (gid == "")) [
  | inl e ↦ rw e h
  | inr e ↦ rw e (elim (Bool-cases (is_zero v)) [
    | inl z ↦ rw z (record_deltas-HasDistinctKeys gid deltas counters h)
    | inr z ↦ rw z (
        record_deltas-HasDistinctKeys gid deltas
          (accumulate ("*", f) v (accumulate (gid, f) v counters))
          (accumulate-HasDistinctKeys ("*", f) v (accumulate (gid, f) v counters)
            (accumulate-HasDistinctKeys (gid, f) v counters h)))
  ])
]

-- Feeding a receipt keeps the counters a dictionary.
pub feed_counters-HasDistinctKeys :
    (me : String) (receipt : Receipt) (counters : Counters)
    → Dicts.HasDistinctKeys counters
    → Dicts.HasDistinctKeys (feed_counters me receipt counters)
unfolding feed_counters
feed_counters-HasDistinctKeys me r counters h = elim (Bool-cases (r.provider_pubkey == me)) [
  | inl e ↦ rw e (elim (Bool-cases (r.consumer_pubkey == me)) [
    | inl c ↦ rw c (
        record_deltas-HasDistinctKeys (bucket_gid r) (consumed_deltas r)
          (record_deltas (bucket_gid r) (provided_deltas r) counters)
          (record_deltas-HasDistinctKeys (bucket_gid r) (provided_deltas r) counters h))
    | inr c ↦ rw c (record_deltas-HasDistinctKeys (bucket_gid r) (provided_deltas r) counters h)
  ])
  | inr e ↦ rw e (elim (Bool-cases (r.consumer_pubkey == me)) [
    | inl c ↦ rw c (record_deltas-HasDistinctKeys (bucket_gid r) (consumed_deltas r) counters h)
    | inr c ↦ rw c h
  ])
]

-- Sampling empties the counters and moves each into its column of the bucket that the current hour
-- starts, adding to what stood there, and leaves every other bucket as it is: no count is lost and
-- none is written twice. The counters are a dictionary: no key stands in them twice.
pub sample_once_moves :
    (start gid t field : String) (counters : Counters) (buckets : Buckets)
    → Dicts.HasDistinctKeys counters
    → ((sample_once start counters buckets).0 ≡ [])
      × (bucket_value (gid, t) field (sample_once start counters buckets).1 ≡ (
          if start == t
          then bucket_value (gid, t) field buckets +ℤ pending (gid, field) counters
          else bucket_value (gid, t) field buckets))
unfolding sample_once
sample_once_moves start gid t field [] buckets h =
    (refl, write_deltas_value start gid t field [] buckets h)
sample_once_moves start gid t field ((key, value) ∷ counters) buckets h =
    (refl, write_deltas_value start gid t field ((key, value) ∷ counters) buckets h)
