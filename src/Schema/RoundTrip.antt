-- ===== src/Schema/RoundTrip.antt =====
-- internal/schema/schema.go: writing a record to a hash and reading it back.
use orchestration.Prelude.{
  ℕ, zero, suc, ◌<◌, ◌^◌, ◌≡◌, refl, none, some, [], ◌∷◌, arith, if◌then◌else◌, not, ◌&&◌, ◌==◌,
}
use orchestration.Prelude.Int.{ℤ, pos, negsuc, eq_ℤ, IsInt64}
use orchestration.Prelude.Text.{Str, str_eq}
use orchestration.Prelude.Decimal.{
  format_int, format_nat, scan_int, scan_int-format_int, format_nat_head, all_digits,
  all_digits-format_nat,
}
use orchestration.Redis.{Hash, field?}
use orchestration.Client.{ok}
use orchestration.Schema.Codec.{
  DeploymentSpec, PodSpec, NodeCapacity, atoi, atoi_default, parse_uint, text_entry, int_entry,
  nat_entry, deployment_to_map, map_to_deployment, pod_to_map, map_to_pod, node_capacity_to_map,
  map_to_node_capacity, or_empty,
}

format_int_head : (z : ℤ) → (c : ℕ) × (s : Str) × (format_int z ≡ c ∷ s)
unfolding format_int
format_int_head (pos n) = let (c, s, p, d) = format_nat_head n in (c, s, p)
format_int_head (negsuc n) = (b'-', format_nat (suc n), refl)

pub atoi-format_int : (z : ℤ) → IsInt64 z → atoi (format_int z) ≡ ok z
unfolding atoi
atoi-format_int z h =
    let (c, s, p) = format_int_head z in
    let q : scan_int (c ∷ s) ≡ some z = rw p at (scan_int-format_int z h) in
    rw p (ground (arith, q))

pub atoi_default-format_int : (z d : ℤ) → IsInt64 z → atoi_default (format_int z) d ≡ z
unfolding atoi_default
atoi_default-format_int z d h =
    let (c, s, p) = format_int_head z in
    let q : scan_int (c ∷ s) ≡ some z = rw p at (scan_int-format_int z h) in
    rw p (ground (arith, q))

field?-text_entry :
    (f g s : Str) (h : Hash)
    → field? f (text_entry g s h) ≡ (if str_eq g f && not (str_eq s []) then some s else field? f h)
unfolding text_entry
field?-text_entry f g [] h = ground arith
field?-text_entry f g (c ∷ s) h = ground arith

field?-int_entry :
    (f g : Str) (z : ℤ) (h : Hash)
    → field? f (int_entry g z h)
      ≡ (if str_eq g f && not (eq_ℤ z (pos 0)) then some (format_int z) else field? f h)
unfolding int_entry
field?-int_entry f g z h = ground arith

field?-nat_entry :
    (f g : Str) (n : ℕ) (h : Hash)
    → field? f (nat_entry g n h)
      ≡ (if str_eq g f && not (n == 0) then some (format_nat n) else field? f h)
unfolding nat_entry
field?-nat_entry f g n h = ground arith

-- A text that may be missing reads back as itself, the empty one too.
text_back : (s : Str) → or_empty (if not (str_eq s []) then some s else none) ≡ s
text_back [] = refl
text_back (c ∷ s) = refl

int_back :
    (z : ℤ)
    → IsInt64 z
    → atoi_default (or_empty (if not (eq_ℤ z (pos 0)) then some (format_int z) else none)) (pos 0)
      ≡ z
unfolding atoi_default
int_back (pos zero) h = refl
int_back (pos (suc n)) h = ground (arith, atoi_default-format_int (pos (suc n)) (pos 0) h)
int_back (negsuc n) h = ground (arith, atoi_default-format_int (negsuc n) (pos 0) h)

nat_back :
    (n : ℕ)
    → n < 2 ^ 64
    → parse_uint (or_empty (if not (n == 0) then some (format_nat n) else none)) ≡ n
unfolding parse_uint
nat_back zero h = refl
nat_back (suc n) h =
    let (c, s, p, d) = format_nat_head (suc n) in
    let q : all_digits 0 (c ∷ s) ≡ some (suc n) = rw p at (all_digits-format_nat (suc n)) in
    rw p (ground (arith, q))

ruleset entries = (field?-text_entry, field?-int_entry, field?-nat_entry, text_back)

-- The integers of a record fit Go's `int`.
pub record IsDeployment (d : DeploymentSpec) : Type 0 where
  pub min_fits : IsInt64 d.min_replicas
  pub max_fits : IsInt64 d.max_replicas
  pub cpu_fits : IsInt64 d.cpu_request
  pub mem_fits : IsInt64 d.mem_request
  pub desired_fits : IsInt64 d.desired_replicas
  pub target_fits : IsInt64 d.target_cpu_percent
  pub port_fits : IsInt64 d.port

pub record IsPod (p : PodSpec) : Type 0 where
  pub cpu_fits : IsInt64 p.cpu_request
  pub mem_fits : IsInt64 p.mem_request
  pub pid_fits : IsInt64 p.pid
  pub restarts_fit : IsInt64 p.restart_count
  pub failures_fit : IsInt64 p.consecutive_failures
  pub backoff_fits : IsInt64 p.backoff_next_seconds
  pub start_fits : p.pid_start_time < 2 ^ 64
  pub port_fits : IsInt64 p.host_port

-- A deployment whose integers fit 64 bits reads back from the hash that it is written as, with the
-- optional scaling times present or not.
pub map_to_deployment-deployment_to_map :
    (d : DeploymentSpec) → IsDeployment d → map_to_deployment (deployment_to_map d) ≡ ok d
unfolding map_to_deployment deployment_to_map
map_to_deployment-deployment_to_map d v = simp (
  entries,
  atoi-format_int d.min_replicas v.min_fits,
  atoi-format_int d.max_replicas v.max_fits,
  atoi-format_int d.cpu_request v.cpu_fits,
  atoi-format_int d.mem_request v.mem_fits,
  atoi-format_int d.desired_replicas v.desired_fits,
  atoi_default-format_int d.target_cpu_percent (pos 0) v.target_fits,
  atoi_default-format_int d.port (pos 0) v.port_fits,
)

-- A pod whose integers fit 64 bits reads back from the hash that it is written as, whichever of its
-- optional fields are left out.
pub map_to_pod-pod_to_map : (p : PodSpec) → IsPod p → map_to_pod (pod_to_map p) ≡ ok p
unfolding map_to_pod pod_to_map
map_to_pod-pod_to_map p v = simp (
  entries,
  atoi-format_int p.cpu_request v.cpu_fits,
  atoi-format_int p.mem_request v.mem_fits,
  int_back p.pid v.pid_fits,
  int_back p.restart_count v.restarts_fit,
  int_back p.consecutive_failures v.failures_fit,
  int_back p.backoff_next_seconds v.backoff_fits,
  nat_back p.pid_start_time v.start_fits,
  int_back p.host_port v.port_fits,
)

-- A node's capacity reads back from its hash, if its four numbers fit 64 bits.
pub map_to_node_capacity-node_capacity_to_map :
    (n : NodeCapacity)
    → IsInt64 n.total_cpu
    → IsInt64 n.total_mem
    → IsInt64 n.allocated_cpu
    → IsInt64 n.allocated_mem
    → map_to_node_capacity (node_capacity_to_map n) ≡ ok n
unfolding map_to_node_capacity node_capacity_to_map
map_to_node_capacity-node_capacity_to_map n tc tm ac am = simp (
  atoi-format_int n.total_cpu tc,
  atoi-format_int n.total_mem tm,
  atoi-format_int n.allocated_cpu ac,
  atoi-format_int n.allocated_mem am,
)
