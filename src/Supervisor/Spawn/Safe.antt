-- ===== src/Supervisor/Spawn/Safe.antt =====
-- internal/supervisor/spawn.go: starting and stopping a process under the invariant of
-- `Capacity.Sane`.
use orchestration.Prelude.{ℕ, zero, suc, refl, inl, Option, none, some, [], ◌∷◌}
use orchestration.Prelude.Int.{ℤ}
use orchestration.Prelude.Text.{Str}
use orchestration.Prelude.Decimal.{format_nat}
use orchestration.Redis.{Redis, RedisLaws, Hash}
use orchestration.Client.{Env, Client, hash_set}
use orchestration.Client.Keeps.{Keeps, Stable, flow_rules, env_rules, Keeps-hash_get}
use orchestration.Capacity.Sane.{IsSane, fields_written-Keeps}
use orchestration.Schema.Fields.{
  field_pod_status, field_pod_pid, field_pod_pid_start_time, status_failed,
}
use orchestration.Schema.Codec.{DeploymentSpec, PodSpec}
use orchestration.Supervisor.Machine.{Machine}
use orchestration.Supervisor.Process.{is_same_process, pid_alive, process_start_time}
use orchestration.Supervisor.Ports.Safe.{allocate_host_port-Keeps}
use orchestration.Supervisor.Spawn.{
  wait_or_kill, terminate, identity_fields, record_identity, after_start, launch,
  mark_failed_if_spawn_fails, host_port_for, start_fresh, spawn_pod, spawn_fields, spawn_deployment,
  spawn_read, spawn, stop_pod, stop_read, stop,
}

module _ {r : Redis} {P : r.Db → Type 0} (os : Machine) where
  pid_alive-Keeps : (pid : ℤ) → Keeps P (pid_alive {r = r} os pid)
  unfolding pid_alive
  pid_alive-Keeps pid = search (flow_rules, env_rules)

  process_start_time-Keeps : (pid : ℤ) → Keeps P (process_start_time {r = r} os pid)
  unfolding process_start_time
  process_start_time-Keeps pid = search (flow_rules, env_rules)

  is_same_process-Keeps : (pid : ℤ) (want : ℕ) → Keeps P (is_same_process {r = r} os pid want)
  unfolding is_same_process
  is_same_process-Keeps pid want =
      search (flow_rules, pid_alive-Keeps, process_start_time-Keeps) depth 8

module _ {r : Redis} (laws : RedisLaws r) (e : Env r) (st : Stable e (IsSane r)) (os : Machine)
    (node_id : Str) where
  wait_step :
      (n : ℕ) (pid : ℤ)
      → Keeps (IsSane r) (wait_or_kill e os node_id n pid)
      → Keeps (IsSane r) (wait_or_kill e os node_id (suc n) pid)
  unfolding wait_or_kill
  wait_step n pid rest = search (flow_rules, env_rules, pid_alive-Keeps os)

  wait_or_kill-Keeps : (n : ℕ) (pid : ℤ) → Keeps (IsSane r) (wait_or_kill e os node_id n pid)
  unfolding wait_or_kill
  wait_or_kill-Keeps zero pid = search env_rules
  wait_or_kill-Keeps (suc n) pid = wait_step n pid (wait_or_kill-Keeps n pid)

  terminate-Keeps : (pid : ℤ) → Keeps (IsSane r) (terminate e os node_id pid)
  unfolding terminate
  terminate-Keeps pid = search (flow_rules, env_rules, wait_or_kill-Keeps)

  identity-Keeps :
      (key : Str) (pid : ℤ) (start_time : ℕ) (host_port started_at : ℤ)
      → Keeps
          (IsSane r)
          (hash_set e key (identity_fields e os node_id pid start_time host_port started_at))
  identity-Keeps key pid start_time host_port started_at =
      fields_written-Keeps r laws e st key _ (refl, (refl, (refl, (refl, (refl, tt)))))
        (inl refl, (inl refl, (inl refl, (inl refl, (inl refl, tt)))))

  failed-Keeps :
      (key : Str) → Keeps (IsSane r) (hash_set e key ((field_pod_status, status_failed) ∷ []))
  failed-Keeps key = fields_written-Keeps r laws e st key _ (refl, tt) (inl refl, tt)

  cleared-Keeps :
      (key : Str)
      → Keeps (IsSane r) (
          hash_set e key
            ((field_pod_pid, format_nat 0) ∷ (field_pod_pid_start_time, format_nat 0) ∷ []))
  cleared-Keeps key =
      fields_written-Keeps r laws e st key _ (refl, (refl, tt)) (inl refl, (inl refl, tt))

  record_identity-Keeps :
      (key : Str) (host_port pid : ℤ) (time : Option ℕ)
      → Keeps (IsSane r) (record_identity e os node_id key host_port pid time)
  unfolding record_identity
  record_identity-Keeps key host_port pid none = search flow_rules
  record_identity-Keeps key host_port pid (some t) =
      search (flow_rules, env_rules, identity-Keeps, terminate-Keeps) depth 8

  after_start-Keeps :
      (dep : DeploymentSpec) (pod : PodSpec) (key : Str) (host_port : ℤ) (pid : Option ℤ)
      → Keeps (IsSane r) (after_start e os node_id dep pod key host_port pid)
  unfolding after_start
  after_start-Keeps dep pod key host_port none = search flow_rules
  after_start-Keeps dep pod key host_port (some pid) =
      search (flow_rules, env_rules, process_start_time-Keeps os, record_identity-Keeps)

  launch-Keeps :
      (dep : DeploymentSpec) (pod : PodSpec) (key : Str) (host_port : ℤ)
      → Keeps (IsSane r) (launch e os node_id dep pod key host_port)
  unfolding launch
  launch-Keeps dep pod key host_port = search (flow_rules, env_rules, after_start-Keeps) depth 8

  mark_failed-Keeps :
      (key : Str) (m : Client r Unit)
      → Keeps (IsSane r) m
      → Keeps (IsSane r) (mark_failed_if_spawn_fails e os node_id key m)
  unfolding mark_failed_if_spawn_fails
  mark_failed-Keeps key m k = search (flow_rules, env_rules, failed-Keeps) depth 10

  host_port_for-Keeps :
      (dep : DeploymentSpec) (pod : PodSpec) → Keeps (IsSane r) (host_port_for e os node_id dep pod)
  unfolding host_port_for
  host_port_for-Keeps dep pod = search (flow_rules, allocate_host_port-Keeps e st os)

  start_fresh-Keeps :
      (dep : DeploymentSpec) (pod : PodSpec) (key : Str)
      → Keeps (IsSane r) (start_fresh e os node_id dep pod key)
  unfolding start_fresh
  start_fresh-Keeps dep pod key =
      search (flow_rules, host_port_for-Keeps, mark_failed-Keeps, launch-Keeps)

  spawn_pod-Keeps :
      (dep : DeploymentSpec) (key : Str) (pod : PodSpec)
      → Keeps (IsSane r) (spawn_pod e os node_id dep key pod)
  unfolding spawn_pod
  spawn_pod-Keeps dep key pod =
      search (flow_rules, env_rules, is_same_process-Keeps os, start_fresh-Keeps)

  spawn_fields-Keeps :
      (dep : DeploymentSpec) (key : Str) (h : Hash)
      → Keeps (IsSane r) (spawn_fields e os node_id dep key h)
  unfolding spawn_fields
  spawn_fields-Keeps dep key [] = search flow_rules
  spawn_fields-Keeps dep key (f ∷ fields) = search (flow_rules, spawn_pod-Keeps)

  spawn_deployment-Keeps :
      (deployment pod_id : Str) (dep : DeploymentSpec)
      → Keeps (IsSane r) (spawn_deployment e os node_id deployment pod_id dep)
  unfolding spawn_deployment
  spawn_deployment-Keeps deployment pod_id dep =
      search (flow_rules, Keeps-hash_get e st, spawn_fields-Keeps)

  spawn_read-Keeps :
      (deployment pod_id : Str) (h : Hash)
      → Keeps (IsSane r) (spawn_read e os node_id deployment pod_id h)
  unfolding spawn_read
  spawn_read-Keeps deployment pod_id [] = search flow_rules
  spawn_read-Keeps deployment pod_id (f ∷ fields) = search (flow_rules, spawn_deployment-Keeps)

  pub spawn-Keeps :
      (deployment pod_id : Str) → Keeps (IsSane r) (spawn e os node_id deployment pod_id)
  unfolding spawn
  spawn-Keeps deployment pod_id = search (flow_rules, Keeps-hash_get e st, spawn_read-Keeps)

  stop_pod-Keeps : (key : Str) (pod : PodSpec) → Keeps (IsSane r) (stop_pod e os node_id key pod)
  unfolding stop_pod
  stop_pod-Keeps key pod =
      search (flow_rules, env_rules, is_same_process-Keeps os, terminate-Keeps, cleared-Keeps) depth
        8

  stop_read-Keeps : (key : Str) (h : Hash) → Keeps (IsSane r) (stop_read e os node_id key h)
  unfolding stop_read
  stop_read-Keeps key [] = search flow_rules
  stop_read-Keeps key (f ∷ fields) = search (flow_rules, stop_pod-Keeps)

  pub stop-Keeps :
      (deployment pod_id : Str) → Keeps (IsSane r) (stop e os node_id deployment pod_id)
  unfolding stop
  stop-Keeps deployment pod_id = search (flow_rules, Keeps-hash_get e st, stop_read-Keeps)
