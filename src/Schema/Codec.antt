-- ===== src/Schema/Codec.antt =====
-- The records of internal/schema/schema.go and their conversions to and from Redis hashes. The
-- texts of integer fields are those that the Redis client writes for a Go integer.
pub mod Requests
use orchestration.Prelude.{ℕ, ◌^◌, Option, none, some, [], ◌∷◌, ltb, ◌==◌, if◌then◌else◌}
use orchestration.Prelude.Int.{ℤ, pos, eq_ℤ}
use orchestration.Prelude.Text.{Str}
use orchestration.Prelude.Decimal.{format_int, format_nat, scan_int, all_digits}
use orchestration.Redis.{Hash, field?}
use orchestration.Client.{Result, ok, err, malformed}
use orchestration.Schema.Fields.{
  field_deployment_name, field_min_replicas, field_max_replicas, field_cpu_request,
  field_mem_request, field_desired_replicas, field_created_at, field_last_scale_up_at,
  field_last_scale_down_at, field_target_cpu_percent, field_exec_path, field_port,
  field_pod_deployment, field_pod_id, field_pod_status, field_pod_node_id, field_pod_pid,
  field_pod_started_at, field_pod_restart_count, field_pod_consec_failures,
  field_pod_last_health_ok_at, field_pod_backoff_next_sec, field_pod_last_restart_at,
  field_pod_pid_start_time, field_pod_host_port, field_total_cpu, field_total_mem,
  field_allocated_cpu, field_allocated_mem,
}

pub record DeploymentSpec : Type 0 where
  pub name : Str
  pub min_replicas : ℤ
  pub max_replicas : ℤ
  pub cpu_request : ℤ
  pub mem_request : ℤ
  pub desired_replicas : ℤ
  pub target_cpu_percent : ℤ
  pub exec_path : Str
  pub port : ℤ
  pub created_at : Str
  pub last_scale_up_at : Str
  pub last_scale_down_at : Str

pub record PodSpec : Type 0 where
  pub deployment : Str
  pub pod_id : Str
  pub status : Str
  pub node_id : Str
  pub cpu_request : ℤ
  pub mem_request : ℤ
  pub created_at : Str
  pub pid : ℤ
  pub started_at : Str
  pub restart_count : ℤ
  pub consecutive_failures : ℤ
  pub last_health_ok_at : Str
  pub backoff_next_seconds : ℤ
  pub last_restart_at : Str
  pub pid_start_time : ℕ
  pub host_port : ℤ

pub record NodeCapacity : Type 0 where
  pub total_cpu : ℤ
  pub total_mem : ℤ
  pub allocated_cpu : ℤ
  pub allocated_mem : ℤ

abbrev pub or_empty : Option Str → Str
or_empty none = []
or_empty (some s) = s

-- m[f] in Go: the empty string when the field is missing.
abbrev pub text_at : Hash → Str → Str
text_at h f = or_empty (field? f h)

unfoldable pub atoi : Str → Result ℤ
atoi [] = err malformed
atoi (c ∷ s) = elim (scan_int (c ∷ s)) [ none ↦ err malformed | some n ↦ ok n ]

-- The number, or the default where the text is empty or no number; every caller drops the error.
unfoldable pub atoi_default : Str → ℤ → ℤ
atoi_default [] def = def
atoi_default (c ∷ s) def = elim (scan_int (c ∷ s)) [ none ↦ def | some n ↦ n ]

unfoldable pub parse_uint : Str → ℕ
parse_uint [] = 0
parse_uint (c ∷ s) = elim (all_digits 0 (c ∷ s)) [
  | none ↦ 0
  | some n ↦ if ltb n (2 ^ 64) then n else 0
]

-- An entry that is written only where it says something.
unfoldable pub text_entry : Str → Str → Hash → Hash
text_entry f [] h = h
text_entry f (c ∷ s) h = (f, c ∷ s) ∷ h

unfoldable pub int_entry : Str → ℤ → Hash → Hash
int_entry f z h = if eq_ℤ z (pos 0) then h else (f, format_int z) ∷ h

unfoldable pub nat_entry : Str → ℕ → Hash → Hash
nat_entry f n h = if n == 0 then h else (f, format_nat n) ∷ h

unfoldable pub deployment_to_map : DeploymentSpec → Hash
unfolding text_entry
deployment_to_map d =
    (field_deployment_name, d.name)
    ∷ (field_min_replicas, format_int d.min_replicas)
    ∷ (field_max_replicas, format_int d.max_replicas)
    ∷ (field_cpu_request, format_int d.cpu_request)
    ∷ (field_mem_request, format_int d.mem_request)
    ∷ (field_desired_replicas, format_int d.desired_replicas)
    ∷ (field_target_cpu_percent, format_int d.target_cpu_percent)
    ∷ (field_exec_path, d.exec_path)
    ∷ (field_port, format_int d.port)
    ∷ (field_created_at, d.created_at)
    ∷ text_entry field_last_scale_up_at d.last_scale_up_at
        (text_entry field_last_scale_down_at d.last_scale_down_at [])

infixl 5 ◌>>=◌
abbrev ◌>>=◌ {ℓ κ} : {A : Type ℓ} {B : Type κ} → Result A → (A → Result B) → Result B
ok a >>= f = f a
err e >>= f = err e

unfoldable pub map_to_deployment : Hash → Result DeploymentSpec
map_to_deployment m = do
  min_replicas ← atoi (text_at m field_min_replicas)
  max_replicas ← atoi (text_at m field_max_replicas)
  cpu_request ← atoi (text_at m field_cpu_request)
  mem_request ← atoi (text_at m field_mem_request)
  desired_replicas ← atoi (text_at m field_desired_replicas)
  ok (record {
    name = text_at m field_deployment_name;
    min_replicas = min_replicas;
    max_replicas = max_replicas;
    cpu_request = cpu_request;
    mem_request = mem_request;
    desired_replicas = desired_replicas;
    target_cpu_percent = atoi_default (text_at m field_target_cpu_percent) (pos 0);
    exec_path = text_at m field_exec_path;
    port = atoi_default (text_at m field_port) (pos 0);
    created_at = text_at m field_created_at;
    last_scale_up_at = text_at m field_last_scale_up_at;
    last_scale_down_at = text_at m field_last_scale_down_at;
  })

unfoldable pub pod_to_map : PodSpec → Hash
unfolding text_entry int_entry nat_entry
pod_to_map p =
    (field_pod_deployment, p.deployment)
    ∷ (field_pod_id, p.pod_id)
    ∷ (field_pod_status, p.status)
    ∷ (field_pod_node_id, p.node_id)
    ∷ (field_cpu_request, format_int p.cpu_request)
    ∷ (field_mem_request, format_int p.mem_request)
    ∷ (field_created_at, p.created_at)
    ∷ int_entry field_pod_pid p.pid (
        text_entry field_pod_started_at p.started_at (
          int_entry field_pod_restart_count p.restart_count (
            int_entry field_pod_consec_failures p.consecutive_failures (
              text_entry field_pod_last_health_ok_at p.last_health_ok_at (
                int_entry field_pod_backoff_next_sec p.backoff_next_seconds (
                  text_entry field_pod_last_restart_at p.last_restart_at (
                    nat_entry field_pod_pid_start_time p.pid_start_time
                      (int_entry field_pod_host_port p.host_port []))))))))

unfoldable pub map_to_pod : Hash → Result PodSpec
map_to_pod m = do
  cpu_request ← atoi (text_at m field_cpu_request)
  mem_request ← atoi (text_at m field_mem_request)
  ok (record {
    deployment = text_at m field_pod_deployment;
    pod_id = text_at m field_pod_id;
    status = text_at m field_pod_status;
    node_id = text_at m field_pod_node_id;
    cpu_request = cpu_request;
    mem_request = mem_request;
    created_at = text_at m field_created_at;
    pid = atoi_default (text_at m field_pod_pid) (pos 0);
    started_at = text_at m field_pod_started_at;
    restart_count = atoi_default (text_at m field_pod_restart_count) (pos 0);
    consecutive_failures = atoi_default (text_at m field_pod_consec_failures) (pos 0);
    last_health_ok_at = text_at m field_pod_last_health_ok_at;
    backoff_next_seconds = atoi_default (text_at m field_pod_backoff_next_sec) (pos 0);
    last_restart_at = text_at m field_pod_last_restart_at;
    pid_start_time = parse_uint (text_at m field_pod_pid_start_time);
    host_port = atoi_default (text_at m field_pod_host_port) (pos 0);
  })

unfoldable pub node_capacity_to_map : NodeCapacity → Hash
node_capacity_to_map n =
    (field_total_cpu, format_int n.total_cpu)
    ∷ (field_total_mem, format_int n.total_mem)
    ∷ (field_allocated_cpu, format_int n.allocated_cpu)
    ∷ (field_allocated_mem, format_int n.allocated_mem)
    ∷ []

unfoldable pub map_to_node_capacity : Hash → Result NodeCapacity
map_to_node_capacity m = do
  total_cpu ← atoi (text_at m field_total_cpu)
  total_mem ← atoi (text_at m field_total_mem)
  allocated_cpu ← atoi (text_at m field_allocated_cpu)
  allocated_mem ← atoi (text_at m field_allocated_mem)
  ok (record {
    total_cpu = total_cpu;
    total_mem = total_mem;
    allocated_cpu = allocated_cpu;
    allocated_mem = allocated_mem;
  })
