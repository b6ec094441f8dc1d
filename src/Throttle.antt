-- ===== src/Throttle.antt =====
-- networking/storage_throttle.py: the token buckets that hold back the transfer of chunks. The time is
-- in whole milliseconds and the tokens in thousandths of a byte, so that a rate in bytes a second adds
-- whole tokens; the pause for a lack of memory comes before the loop and is left out.
use nexus_grid_grid.Prelude.{
  List, [], ◌∷◌, ℕ, zero, suc, ◌+◌, ◌-◌, ◌*◌, ◌/◌, max, min, Bool, true, false, ◌||◌, Option, none,
  some, if◌then◌else◌, leb,
}
pub mod Loop
mod Tests

-- The settings in megabits, as `LOCAL_SETTINGS` has them; a setting below one counts as one.
pub record Rates : Type 0 where
  pub storage_bw_busy_mbps : ℕ
  pub storage_bw_idle_mbps : ℕ

unfoldable pub busy_mbps : Rates → ℕ
busy_mbps rates = max 1 rates.storage_bw_busy_mbps

unfoldable pub idle_mbps : Rates → ℕ
idle_mbps rates = max 1 rates.storage_bw_idle_mbps

-- The numbers of running containers and processes of the worker.
unfoldable pub is_busy : ℕ → ℕ → Bool
is_busy containers procs = leb 1 containers || leb 1 procs

-- `rate_bps` of the profile.
unfoldable pub rate_of : Rates → Bool → ℕ
unfolding busy_mbps idle_mbps
rate_of rates busy = (if busy then busy_mbps rates else idle_mbps rates) * (1024 * 1024)

unfoldable pub burst_of : ℕ → ℕ
burst_of rate = max (64 * 1024) rate * 1000

pub record StorageThrottle : Type 0 where
  pub busy_tokens : ℕ
  pub idle_tokens : ℕ
  pub last : ℕ

unfoldable pub top_up : Rates → ℕ → ℕ → StorageThrottle → StorageThrottle
unfolding rate_of
top_up rates burst now s = record {
  busy_tokens = min burst (s.busy_tokens + (now - s.last) * rate_of rates true);
  idle_tokens = min burst (s.idle_tokens + (now - s.last) * rate_of rates false);
  last = now;
}

unfoldable pub tokens_of : Bool → StorageThrottle → ℕ
tokens_of busy s = if busy then s.busy_tokens else s.idle_tokens

unfoldable pub spend : Bool → ℕ → StorageThrottle → StorageThrottle
spend busy n s =
    if busy
    then record s { busy_tokens = s.busy_tokens - n }
    else record s { idle_tokens = s.idle_tokens - n }

-- The sleep for a deficit in thousandths of a byte at a rate, in seconds as a fraction: the deficit
-- over the rate, and five milliseconds at the least.
unfoldable pub sleep_for : ℕ → ℕ → ℕ × ℕ
sleep_for deficit rate =
    if leb (5 * max 1 rate) deficit then (deficit, 1000 * max 1 rate) else (5, 1000)

-- What one round finds: the clock, the settings, whether the worker is busy, and the throttle of the
-- process as the other callers left it.
pub record View : Type 0 where
  pub now : ℕ
  pub settings : Rates
  pub is_busy_now : Bool
  pub throttle : StorageThrottle

-- One round of the loop of `acquire`, which no other caller interrupts: the throttle that it leaves,
-- and the sleep that it asks for, or none where the demand is granted. The rate and the burst are of
-- the profile in which the call began; the demand `n` is in thousandths of a byte.
unfoldable pub acquire_round : ℕ → ℕ → View → StorageThrottle × Option (ℕ × ℕ)
unfolding burst_of top_up tokens_of spend sleep_for
acquire_round rate n v =
    let filled = top_up v.settings (burst_of rate) v.now v.throttle in
    let tokens = tokens_of v.is_busy_now filled in
    if leb n tokens
    then (spend v.is_busy_now n filled, none)
    else (filled, some (sleep_for (n - tokens) rate))

-- The loop over what the rounds find, one view for each wake-up: the throttle after the round that
-- grants the demand, or `none` where none of these rounds does.
unfoldable pub acquire_loop : ℕ → ℕ → List View → Option StorageThrottle
unfolding acquire_round
acquire_loop rate n [] = none
acquire_loop rate n (v ∷ views) =
    let rest = acquire_loop rate n views in
    let round = acquire_round rate n v in elim round.1 [ none ↦ some round.0 | some sleep ↦ rest ]

-- `acquire`, with the demand in bytes and the profile in which it begins. A demand of nothing returns at
-- once and touches no throttle.
pub data Acquired : Type 0 where
  at_once : Acquired
  granted : StorageThrottle → Acquired
  still_waiting : Acquired

unfoldable pub answer_of : Option StorageThrottle → Acquired
answer_of none = still_waiting
answer_of (some s) = granted s

unfoldable pub acquire : Rates → Bool → ℕ → List View → Acquired
unfolding rate_of acquire_loop answer_of
acquire rates busy zero views = at_once
acquire rates busy (suc n) views =
    answer_of (acquire_loop (rate_of rates busy) (suc n * 1000) views)
