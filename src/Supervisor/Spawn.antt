-- ===== src/Supervisor/Spawn.antt =====
-- internal/supervisor/spawn.go: starting and stopping the process of a pod. What the agent does to
-- processes is kept in `World.acts`, in order.
pub mod Once
pub mod Safe
use orchestration.Prelude.{
  ℕ, zero, suc, ◌≡◌, Bool, true, false, not, ◌&&◌, ◌||◌, Option, none, some, List, [], ◌∷◌, ◌++◌,
  ◌==◌, if◌then◌else◌,
}
use orchestration.Prelude.Int.{ℤ, pos, leb_ℤ, eq_ℤ}
use orchestration.Prelude.Text.{Str, codes, str_eq}
use orchestration.Prelude.Decimal.{format_int, format_nat}
use orchestration.Redis.{Redis, Hash}
use orchestration.Client.{
  Error, Result, unusable, no_deployment, no_pod, info, error, Act, started, terminated, killed,
  Env, Client, pure, fail, try, handle, ◌>>=◌, ◌>>◌, hash_get, hash_set, now, observe, act, report,
}
use orchestration.Schema.Keys.{deployment_key, pod_key}
use orchestration.Schema.Fields.{
  field_pod_pid, field_pod_pid_start_time, field_pod_host_port, field_pod_started_at,
  field_pod_status, status_running, status_failed,
}
use orchestration.Schema.Codec.{DeploymentSpec, PodSpec, map_to_deployment, map_to_pod}
use orchestration.Supervisor.Machine.{Machine}
use orchestration.Supervisor.Process.{process_start_time, pid_alive, is_same_process}
use orchestration.Supervisor.Ports.{allocate_host_port}

abbrev env_or_default : Machine → Str → Str → Str
env_or_default os name fallback = let v = os.variable name in if str_eq v [] then fallback else v

-- The whole environment of a workload.
unfoldable pub workload_env : Machine → Str → DeploymentSpec → PodSpec → ℤ → List Str
workload_env os node_id dep pod host_port =
    (codes "PATH=" ++ env_or_default os (codes "PATH") (codes "/usr/local/bin:/usr/bin:/bin"))
    ∷ (codes "HOME=" ++ env_or_default os (codes "HOME") (codes "/tmp"))
    ∷ (codes "MINIK8S_POD_ID=" ++ pod.pod_id)
    ∷ (codes "MINIK8S_DEPLOYMENT=" ++ dep.name)
    ∷ (codes "MINIK8S_NODE_ID=" ++ node_id)
    ∷ (codes "PORT=" ++ format_int host_port)
    ∷ []

module _ {r : Redis} (e : Env r) (os : Machine) (node_id : Str) where
  -- The polls for the end of a process, and the kill when its grace is over.
  unfoldable pub wait_or_kill : ℕ → ℤ → Client r Unit
  wait_or_kill zero pid = act (killed pid)
  wait_or_kill (suc polls) pid = do
    alive ← pid_alive os pid
    let more = wait_or_kill polls pid
    if alive then more else pure tt

  unfoldable pub terminate : ℤ → Client r Unit
  unfolding wait_or_kill
  terminate pid =
      if leb_ℤ pid (pos 0) then pure tt else (do act (terminated pid); wait_or_kill os.polls pid)

  abbrev identity_fields : ℤ → ℕ → ℤ → ℤ → Hash
  identity_fields pid start_time host_port started_at =
      (field_pod_pid, format_int pid)
      ∷ (field_pod_pid_start_time, format_nat start_time)
      ∷ (field_pod_host_port, format_int host_port)
      ∷ (field_pod_started_at, format_int started_at)
      ∷ (field_pod_status, status_running)
      ∷ []

  -- A process that cannot be recorded is stopped again.
  record_identity : Str → ℤ → ℤ → Option ℕ → Client r Unit
  record_identity key host_port pid none = fail unusable
  record_identity key host_port pid (some start_time) = do
    started_at ← now e
    written ← try (hash_set e key (identity_fields pid start_time host_port started_at))
    handle written (λ _. report e info (codes "pod_started"))
        (λ cause. do terminate pid; fail cause)

  after_start : DeploymentSpec → PodSpec → Str → ℤ → Option ℤ → Client r Unit
  unfolding record_identity
  after_start dep pod key host_port none = fail unusable
  after_start dep pod key host_port (some pid) = do
    act (started dep.exec_path (workload_env os node_id dep pod host_port) pid)
    start_time ← process_start_time os pid
    record_identity key host_port pid start_time

  unfoldable pub launch : DeploymentSpec → PodSpec → Str → ℤ → Client r Unit
  unfolding after_start
  launch dep pod key host_port = do
    found ← observe (λ t. os.has_file t dep.exec_path)
    null ← observe os.has_null
    (if found && null
        then (do
          pid ← observe (λ t. os.start t dep.exec_path)
          after_start dep pod key host_port pid)
        else fail unusable)

  unfoldable pub mark_failed_if_spawn_fails : Str → Client r Unit → Client r Unit
  mark_failed_if_spawn_fails key spawn = do
    outcome ← try spawn
    handle outcome (λ _. pure tt)
        (λ cause. do
          marked ← try (hash_set e key ((field_pod_status, status_failed) ∷ []))
          handle marked (λ _. pure tt) (λ _. report e error (codes "pod_status_write_failed"))
          report e error (codes "pod_spawn_failed")
          fail cause)

  -- A pod keeps the port it has.
  host_port_for : DeploymentSpec → PodSpec → Client r ℤ
  host_port_for dep pod =
      if eq_ℤ pod.host_port (pos 0)
      then allocate_host_port e os node_id dep.port
      else pure pod.host_port

  start_fresh : DeploymentSpec → PodSpec → Str → Client r Unit
  unfolding host_port_for
  start_fresh dep pod key = do
    host_port ← host_port_for dep pod
    mark_failed_if_spawn_fails key (launch dep pod key host_port)

  -- A pod with a live process of its own is left alone.
  spawn_pod : DeploymentSpec → Str → PodSpec → Client r Unit
  unfolding start_fresh
  spawn_pod dep key pod = do
    running ← is_same_process os pod.pid pod.pid_start_time
    (if running then report e info (codes "pod_already_running") else start_fresh dep pod key)

  spawn_fields : DeploymentSpec → Str → Hash → Client r Unit
  unfolding spawn_pod
  spawn_fields dep key [] = fail no_pod
  spawn_fields dep key (f ∷ fields) =
      handle (map_to_pod (f ∷ fields)) (spawn_pod dep key) (λ cause. fail cause)

  spawn_deployment : Str → Str → DeploymentSpec → Client r Unit
  unfolding spawn_fields
  spawn_deployment deployment pod_id dep = do
    fields ← hash_get e (pod_key deployment pod_id)
    spawn_fields dep (pod_key deployment pod_id) fields

  spawn_read : Str → Str → Hash → Client r Unit
  unfolding spawn_deployment
  spawn_read deployment pod_id [] = fail no_deployment
  spawn_read deployment pod_id (f ∷ fields) =
      handle (map_to_deployment (f ∷ fields)) (spawn_deployment deployment pod_id)
        (λ cause. fail cause)

  unfoldable pub spawn : Str → Str → Client r Unit
  unfolding spawn_read
  spawn deployment pod_id = do
    fields ← hash_get e (deployment_key deployment)
    spawn_read deployment pod_id fields

  stop_pod : Str → PodSpec → Client r Unit
  stop_pod key pod = do
    running ← is_same_process os pod.pid pod.pid_start_time
    (if running then (do terminate pod.pid; report e info (codes "pod_stopped")) else pure tt)
    hash_set e key ((field_pod_pid, format_nat 0) ∷ (field_pod_pid_start_time, format_nat 0) ∷ [])

  stop_read : Str → Hash → Client r Unit
  unfolding stop_pod
  stop_read key [] = pure tt
  stop_read key (f ∷ fields) = handle (map_to_pod (f ∷ fields)) (stop_pod key) (λ cause. fail cause)

  -- The identity is cleared also where nothing runs.
  unfoldable pub stop : Str → Str → Client r Unit
  unfolding stop_read
  stop deployment pod_id = do
    fields ← hash_get e (pod_key deployment pod_id)
    stop_read (pod_key deployment pod_id) fields
