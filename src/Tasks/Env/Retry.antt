-- ===== src/Tasks/Env/Retry.antt =====
-- The retry policy through the environment and back.
use nexus_grid_grid.Prelude.{
  ℕ, ◌<◌, ◌≤◌, ◌≡◌, some, arith, refl, zero, suc, if◌then◌else◌, ◌==◌, nat_eq,
}
use nexus_grid_grid.Tasks.Env.{
  Task, RetryPolicy, get_retry_policy, set_retry_policy, task_priority, task_retry_at, or_default,
}

stored_value : (n d : ℕ) → 0 < n → or_default (some n) d ≡ n
unfolding or_default
stored_value zero d h = absurd (omega arith)
stored_value (suc n) d h = refl

stored_count : (n : ℕ) → or_default (some n) 0 ≡ n
unfolding or_default
stored_count zero = refl
stored_count (suc n) = refl

-- What `set_retry_policy` stores is what `get_retry_policy` reads back, for a positive base, except
-- that a stored maximum of zero is read back as two; `task_retry_at` reads the stored time back.
pub get-set_retry_policy :
    (base : ℕ) (task : Task) (p : RetryPolicy) (at : ℕ)
    → 0 < p.backoff_base
    → (get_retry_policy base (set_retry_policy task p (some at))
        ≡ record p { retry_max = if p.retry_max == 0 then 2 else p.retry_max })
      × (task_retry_at (set_retry_policy task p (some at)) ≡ at)
unfolding get_retry_policy set_retry_policy task_retry_at or_default
get-set_retry_policy base task p at k = (ground arith, stored_count at)

pub task_priority-le : (task : Task) → task_priority task ≤ 100
unfolding task_priority
task_priority-le task = omega arith
