-- ===== src/Scheduler/Reliability.antt =====
-- nexus/scheduler/reliability.py. The ratio is kept as a fraction, and the bucket is its exact tenths.
pub mod Bucket
use mathlib.Core.Option
use nexus_grid_grid.Prelude.Dicts
use nexus_grid_grid.Prelude.{
  ℕ, ◌+◌, ◌*◌, ◌/◌, Bool, Option, none, some, String, Dict, if◌then◌else◌, ◌==◌, text_key,
}
use nexus_grid_grid.Tasks.Node.{Node, Tally}

abbrev pub no_tally : Tally
no_tally = record { finished = 0; failed = 0 }

unfoldable pub add_outcome : Bool → Tally → Tally
add_outcome ok tally =
    if ok
    then record tally { finished = tally.finished + 1 }
    else record tally { failed = tally.failed + 1 }

unfoldable pub record_worker_outcome : Option String → Bool → Node → Node
unfolding add_outcome
record_worker_outcome none ok node = node
record_worker_outcome (some worker_id) ok node = if worker_id == "" then node else record node {
  worker_outcomes =
      Dicts.insert worker_id
        (add_outcome ok (Option.get_or (Dicts.get worker_id node.worker_outcomes) no_tally))
        node.worker_outcomes;
}

unfoldable pub tally_of : Node → Option String → Tally
tally_of node worker_id =
    Option.get_or (Dicts.get (Option.get_or worker_id "") node.worker_outcomes) no_tally

-- Numerator and denominator of the finished-to-total ratio, with one of each added.
unfoldable pub reliability_ratio : Tally → ℕ × ℕ
reliability_ratio tally = (tally.finished + 1, tally.finished + tally.failed + 2)

unfoldable pub reliability_bucket : Node → Option String → ℕ
unfolding reliability_ratio tally_of
reliability_bucket node worker_id =
    let (num, den) = reliability_ratio (tally_of node worker_id) in num * 10 / den
