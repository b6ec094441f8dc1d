-- ===== src/Tasks/Lease/Deadline.antt =====
-- When a lease is dead, and who holds it.
use nexus_grid_grid.Prelude.{ℕ, ◌+◌, ◌<◌, ◌≡◌, List, [], ◌∷◌, String, ltb, All, ap, ◌∙◌, arith}
use nexus_grid_grid.Tasks.Env.{Task, parse_task_env}
use nexus_grid_grid.Tasks.Node.{Settings}
use nexus_grid_grid.Tasks.Lease.{
  lease_ttl, set_task_lease, refresh_task_lease, task_lease_expired, task_lease_owner,
}

-- The refreshes that a worker's heartbeats cause, in order, at the given times.
pub refresh_at : Settings → List ℕ → Task → Task
refresh_at settings [] task = task
refresh_at settings (at ∷ rest) task =
    refresh_at settings rest (refresh_task_lease settings at task)

-- The last of the times, or the first argument where there is none.
pub last_time : ℕ → List ℕ → ℕ
last_time now [] = now
last_time now (at ∷ rest) = last_time at rest

refreshed :
    (settings : Settings) (at later : ℕ) (task : Task)
    → 0 < at
    → (task_lease_expired later (refresh_task_lease settings at task)
        ≡ ltb (at + lease_ttl settings (parse_task_env task)) later)
      × (task_lease_owner (refresh_task_lease settings at task) ≡ task_lease_owner task)
      × (lease_ttl settings (parse_task_env (refresh_task_lease settings at task))
          ≡ lease_ttl settings (parse_task_env task))
unfolding refresh_task_lease task_lease_expired task_lease_owner
refreshed settings at later task h = ground arith

minted :
    (settings : Settings) (lease_id : String) (at later : ℕ) (task : Task) (worker : String)
    → 0 < at
    → (task_lease_expired later (set_task_lease settings lease_id at task worker)
        ≡ ltb (at + lease_ttl settings (parse_task_env task)) later)
      × (task_lease_owner (set_task_lease settings lease_id at task worker) ≡ worker)
      × (lease_ttl settings (parse_task_env (set_task_lease settings lease_id at task worker))
          ≡ lease_ttl settings (parse_task_env task))
unfolding set_task_lease task_lease_expired task_lease_owner
minted settings lease_id at later task worker h = ground arith

-- The task is held by `worker`, with time-to-live `ttl`, last renewed at `now`.
pub record Held (settings : Settings) (worker : String) (ttl now : ℕ) (task : Task) : Type 0 where
  pub expires : (later : ℕ) → task_lease_expired later task ≡ ltb (now + ttl) later
  pub owner : task_lease_owner task ≡ worker
  pub renewal : lease_ttl settings (parse_task_env task) ≡ ttl

refresh_at-Held :
    {settings : Settings} {worker : String} {ttl now : ℕ} (ats : List ℕ) (task : Task)
    → All (λ at. 0 < at) ats
    → Held settings worker ttl now task
    → Held settings worker ttl (last_time now ats) (refresh_at settings ats task)
unfolding refresh_at last_time
refresh_at-Held [] task pos held = held
refresh_at-Held {settings} {worker} {ttl} (at ∷ rest) task pos held =
    refresh_at-Held rest (refresh_task_lease settings at task) pos.1 (record {
      expires = λ later.
          (refreshed settings at later task pos.0).0 ∙ ap (λ t. ltb (at + t) later) held.renewal;
      owner = (refreshed settings at at task pos.0).1 ∙ held.owner;
      renewal = (refreshed settings at at task pos.0).2 ∙ held.renewal;
    })

-- A lease minted at a time after the epoch and then refreshed at any such times, in any order, is
-- held by the worker that it was minted for, and is expired exactly when more than one time-to-live
-- has passed since the last of these times.
pub lease_deadline :
    (settings : Settings) (lease_id : String) (at later : ℕ) (ats : List ℕ) (task : Task)
    (worker : String)
    → 0 < at
    → All (λ t. 0 < t) ats
    → (task_lease_expired later
          (refresh_at settings ats (set_task_lease settings lease_id at task worker))
        ≡ ltb (last_time at ats + lease_ttl settings (parse_task_env task)) later)
      × (task_lease_owner
            (refresh_at settings ats (set_task_lease settings lease_id at task worker))
          ≡ worker)
lease_deadline settings lease_id at later ats task worker h pos =
    let mint = λ (t : ℕ). minted settings lease_id at t task worker h in
    let held : Held settings worker (lease_ttl settings (parse_task_env task)) (last_time at ats)
        (refresh_at settings ats (set_task_lease settings lease_id at task worker)) =
      refresh_at-Held ats _ pos
        (record { expires = λ t. (mint t).0; owner = (mint at).1; renewal = (mint at).2 }) in
    (held.expires later, held.owner)
