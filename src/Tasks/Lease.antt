-- ===== src/Tasks/Lease.antt =====
-- nexus/tasks/lease.py. The fresh lease id comes from `uuid4`, so it is an argument.
pub mod Deadline
use mathlib.Core.Option
use nexus_grid_grid.Prelude.{
  ℕ, ◌+◌, Bool, not, ◌&&◌, Option, some, String, if◌then◌else◌, ltb, ◌==◌, nat_eq,
}
use nexus_grid_grid.Tasks.Env.{Task, TaskEnv, seconds, parse_task_env, write_task_env, or_default}
use nexus_grid_grid.Tasks.Node.{Settings}

unfoldable pub lease_ttl : Settings → TaskEnv → ℕ
unfolding or_default
lease_ttl settings env =
    let override = or_default env.lease_seconds 0 in
    if ltb 0 override then seconds override else settings.lease_ttl

unfoldable pub set_task_lease : Settings → String → ℕ → Task → String → Task
unfolding parse_task_env write_task_env lease_ttl
set_task_lease settings lease_id now task worker_id =
    let env = parse_task_env task in
    write_task_env task (record env {
      lease_id = some lease_id;
      lease_owner = some worker_id;
      lease_expires_at = some (now + lease_ttl settings env);
    })

unfoldable pub refresh_task_lease : Settings → ℕ → Task → Task
unfolding parse_task_env write_task_env lease_ttl
refresh_task_lease settings now task =
    let env = parse_task_env task in
    write_task_env task (record env { lease_expires_at = some (now + lease_ttl settings env) })

unfoldable pub task_lease_expired : ℕ → Task → Bool
unfolding parse_task_env or_default
task_lease_expired now task =
    let lease_exp = or_default (parse_task_env task).lease_expires_at 0 in
    not (lease_exp == 0) && ltb lease_exp now

unfoldable pub task_lease_owner : Task → String
unfolding parse_task_env
task_lease_owner task = Option.get_or (parse_task_env task).lease_owner ""
