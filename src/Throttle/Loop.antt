-- ===== src/Throttle/Loop.antt =====
-- Whether a wait on the throttle ends.
use nexus_grid_grid.Prelude.{
  ℕ, zero, suc, ◌+◌, ◌-◌, ◌*◌, ◌≤◌, ◌<◌, min, Bool, true, false, ◌≡◌, refl, ap, List, [], ◌∷◌, none,
  leb, arith,
}
use nexus_grid_grid.Throttle.{
  Rates, rate_of, burst_of, StorageThrottle, top_up, tokens_of, View, acquire_round, acquire_loop,
  still_waiting, answer_of, acquire,
}

-- One round: what the bucket holds after topping up.
tokens_of-top_up :
    (rates : Rates) (busy : Bool) (burst now : ℕ) (s : StorageThrottle)
    → tokens_of busy (top_up rates burst now s)
      ≡ min burst (tokens_of busy s + (now - s.last) * rate_of rates busy)
unfolding tokens_of top_up
tokens_of-top_up rates true burst now s = refl
tokens_of-top_up rates false burst now s = refl

top_up-le :
    (rates : Rates) (busy : Bool) (burst now : ℕ) (s : StorageThrottle)
    → tokens_of busy (top_up rates burst now s) ≤ burst
top_up-le rates busy burst now s = rw (tokens_of-top_up rates busy burst now s) (omega arith)

loop_stuck : (rate n : ℕ) (views : List View) → burst_of rate < n → acquire_loop rate n views ≡ none
unfolding acquire_loop acquire_round
loop_stuck rate n [] h = refl
loop_stuck rate n (v ∷ views) h =
    let below : leb n (tokens_of v.is_busy_now (top_up v.settings (burst_of rate) v.now v.throttle))
        ≡ false =
      ground (arith, top_up-le v.settings v.is_busy_now (burst_of rate) v.now v.throttle, h) in
    rw (acquire_loop, acquire_round, below) (loop_stuck rate n views h)

-- A demand above the burst of the profile in which the call begins is never granted, however many
-- rounds are made, whenever the sleeps end, whatever the other callers do to the throttle and the user
-- to the settings meanwhile, and whether the worker is then busy or not.
pub acquire_stuck :
    (rates : Rates) (busy : Bool) (n : ℕ) (views : List View)
    → burst_of (rate_of rates busy) < n * 1000
    → acquire rates busy n views ≡ still_waiting
unfolding acquire answer_of
acquire_stuck rates busy zero views h = absurd (omega (arith, h))
acquire_stuck rates busy (suc k) views h =
    ap answer_of (loop_stuck (rate_of rates busy) (suc k * 1000) views h)
