-- ===== src/Node.antt =====
-- internal/node/node.go: how a node registers, renews its lease, and leaves.
pub mod Config
use orchestration.Prelude.{
  ℕ, ◌≡◌, Bool, true, false, not, ◌&&◌, ◌||◌, Option, none, some, List, [], ◌∷◌, if◌then◌else◌,
}
use orchestration.Prelude.Int.{ℤ, pos, leb_ℤ, add64, mul64}
use orchestration.Prelude.Text.{Str, codes, str_eq}
use orchestration.Redis.{Redis, Hash}
use orchestration.Client.{
  Error, Result, ok, err, invalid, info, warn, Env, Client, pure, fail, try, handle, ◌>>=◌, ◌>>◌,
  hash_get, hash_set, set_add, set_key, delete_key, scan_keys, report,
}
use orchestration.Schema.Keys.{
  node_registry_key, node_capacity_key, node_status_key, pod_key_pattern,
}
use orchestration.Schema.Fields.{
  field_pod_node_id, field_pod_status, node_status_ready, consumes_capacity,
}
use orchestration.Schema.Codec.{NodeCapacity, PodSpec, text_at, map_to_pod, node_capacity_to_map}

-- The part of the configuration that a registrar takes; durations in nanoseconds.
pub record Registrar : Type 0 where
  pub node_id : Str
  pub total_cpu : ℤ
  pub total_mem : ℤ
  pub heartbeat_interval : ℤ
  pub lease_ttl : ℤ

unfoldable pub new_registrar : Registrar → Result Registrar
new_registrar cfg =
    if leb_ℤ cfg.heartbeat_interval (pos 0) || leb_ℤ cfg.lease_ttl (pos 0)
    then err invalid
    else if leb_ℤ cfg.lease_ttl (mul64 cfg.heartbeat_interval (pos 2))
    then err invalid
    else if leb_ℤ cfg.total_cpu (pos 0) || leb_ℤ cfg.total_mem (pos 0)
    then err invalid
    else ok cfg

module _ {r : Redis} (e : Env r) (reg : Registrar) where
  -- The running sums, with one more pod's requests.
  add_request : PodSpec → ℤ × ℤ → ℤ × ℤ
  add_request pod (cpu, mem) = (add64 cpu pod.cpu_request, add64 mem pod.mem_request)

  is_bound : Hash → Bool
  is_bound fields =
      str_eq (text_at fields field_pod_node_id) reg.node_id
      && consumes_capacity (text_at fields field_pod_status)

  -- One pod's hash: the sums go on, with the pod where it holds capacity of this node.
  count_pod : Hash → ℤ × ℤ → Client r (ℤ × ℤ)
  unfolding is_bound add_request
  count_pod [] sums = pure sums
  count_pod (f ∷ fields) sums =
      if is_bound (f ∷ fields)
      then handle (map_to_pod (f ∷ fields)) (λ pod. pure (add_request pod sums))
          (λ _. do report e warn (codes "pod_hash_malformed"); pure sums)
      else pure sums

  count_pods : List Str → ℤ × ℤ → Client r (ℤ × ℤ)
  unfolding count_pod
  count_pods [] sums = pure sums
  count_pods (key ∷ keys) sums = do
    fields ← hash_get e key
    sums' ← count_pod fields sums
    count_pods keys sums'

  unfoldable pub reconcile_allocations : Client r (ℤ × ℤ)
  unfolding count_pods
  reconcile_allocations = do keys ← scan_keys e pod_key_pattern; count_pods keys (pos 0, pos 0)

  -- The registry comes last: a node that the scheduler sees has its capacity hash.
  unfoldable pub register : Client r Unit
  register = do
    sums ← reconcile_allocations
    hash_set e (node_capacity_key reg.node_id) (
        node_capacity_to_map (record {
          total_cpu = reg.total_cpu;
          total_mem = reg.total_mem;
          allocated_cpu = sums.0;
          allocated_mem = sums.1;
        }))
    set_add e node_registry_key reg.node_id
    report e info (codes "node_registered")

  unfoldable pub heartbeat : Client r Unit
  heartbeat = set_key e (node_status_key reg.node_id) node_status_ready reg.lease_ttl

  unfoldable pub deregister : Client r Unit
  deregister = do
    report e info (codes "node_deregistering")
    delete_key e (node_status_key reg.node_id ∷ [])
