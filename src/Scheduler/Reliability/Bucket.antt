-- ===== src/Scheduler/Reliability/Bucket.antt =====
-- The bucket stays in range, moves with the outcomes, and one worker's outcomes leave the others'.
use nexus_grid_grid.Prelude.Dicts
use native.Mathlib.Nat.{div-mul-le_self, le-div_iff_mul-le}
use nexus_grid_grid.Prelude.{
  ℕ, ◌+◌, ◌*◌, ◌/◌, ◌≤◌, Bool, true, false, ◌≡◌, ◌≢◌, refl, some, String, if◌then◌else◌, ◌==◌,
  text_key, arith, beq_false, beq_refl,
}
use nexus_grid_grid.Tasks.Node.{Node, Tally}
use nexus_grid_grid.Scheduler.Reliability.{
  add_outcome, record_worker_outcome, tally_of, reliability_bucket,
}

abbrev tenths : Tally → ℕ
tenths t = (t.finished + 1) * 10 / (t.finished + t.failed + 2)

tenths-le : (t : Tally) → tenths t ≤ 9
tenths-le t = grind arith

-- `q` divided out: q * d ≤ n.
below_quotient : (t : Tally) → tenths t * (t.finished + t.failed + 2) ≤ (t.finished + 1) * 10
below_quotient t = div-mul-le_self ((t.finished + 1) * 10) (t.finished + t.failed + 2)

tenths_success : (t : Tally) → tenths t ≤ tenths (add_outcome true t)
unfolding add_outcome
tenths_success t =
    (le-div_iff_mul-le (omega arith)).1
      (let low = below_quotient t in let small = tenths-le t in omega arith)

tenths_failure : (t : Tally) → tenths (add_outcome false t) ≤ tenths t
unfolding add_outcome
tenths_failure t =
    (le-div_iff_mul-le (omega arith)).1
      (let low = below_quotient (add_outcome false t) in omega arith)

tally_of-record :
    (node : Node) (w v : String) (ok : Bool)
    → w ≢ ""
    → tally_of (record_worker_outcome (some w) ok node) (some v)
      ≡ (if w == v then add_outcome ok (tally_of node (some w)) else tally_of node (some v))
unfolding tally_of record_worker_outcome
tally_of-record node w v ok n = ground (
  arith,
  beq_false w "" n,
  Dicts.get-insert w v (add_outcome ok (tally_of node (some w))) node.worker_outcomes,
)

bucket_tenths :
    (node : Node) (v : String) → reliability_bucket node (some v) ≡ tenths (tally_of node (some v))
unfolding reliability_bucket
bucket_tenths node v = refl

recorded_self :
    (node : Node) (w : String) (ok : Bool)
    → w ≢ ""
    → tally_of (record_worker_outcome (some w) ok node) (some w)
      ≡ add_outcome ok (tally_of node (some w))
recorded_self node w ok n = ground (arith, tally_of-record node w w ok n, beq_refl w)

recorded_other :
    (node : Node) (w v : String) (ok : Bool)
    → w ≢ ""
    → w ≢ v
    → tally_of (record_worker_outcome (some w) ok node) (some v) ≡ tally_of node (some v)
recorded_other node w v ok n d = ground (arith, tally_of-record node w v ok n, beq_false w v d)

-- For a named worker: its bucket lies between 0 and 9, a recorded success never lowers it, a
-- recorded failure never raises it, and neither changes the bucket of any other worker.
pub record_worker_outcome-bucket :
    (node : Node) (w v : String) (ok : Bool)
    → w ≢ ""
    → w ≢ v
    → (reliability_bucket node (some w) ≤ 9)
      × (reliability_bucket node (some w)
          ≤ reliability_bucket (record_worker_outcome (some w) true node) (some w))
      × (reliability_bucket (record_worker_outcome (some w) false node) (some w)
          ≤ reliability_bucket node (some w))
      × (reliability_bucket (record_worker_outcome (some w) ok node) (some v)
          ≡ reliability_bucket node (some v))
record_worker_outcome-bucket node w v ok n d = (
  rw bucket_tenths (tenths-le _),
  rw
      (
        bucket_tenths node w,
        bucket_tenths (record_worker_outcome (some w) true node) w,
        recorded_self node w true n,
      )
      (tenths_success _),
  rw
      (
        bucket_tenths node w,
        bucket_tenths (record_worker_outcome (some w) false node) w,
        recorded_self node w false n,
      )
      (tenths_failure _),
  rw (
    bucket_tenths node v,
    bucket_tenths (record_worker_outcome (some w) ok node) v,
    recorded_other node w v ok n d,
  ),
)
