-- ===== src/Scheduler.antt =====
-- internal/scheduler/scheduler.go: best-fit placement over the atomic reservation.
pub mod Order
pub mod Safe
pub mod Counts
pub mod Reading
pub mod Fits
pub mod Succeeds
use orchestration.Prelude.{
  ℕ, zero, suc, ◌≡◌, Bool, true, false, not, ◌&&◌, Option, none, some, List, [], ◌∷◌, ◌++◌,
  if◌then◌else◌,
}
use orchestration.Prelude.Int.{ℤ, pos, negsuc, sub64, ltb_ℤ}
use orchestration.Prelude.Text.{Str, codes, str_lt}
use orchestration.Prelude.Decimal.{format_int}
use orchestration.Prelude.Sort.{sort_by}
use orchestration.Prelude.Float.{Float}
use orchestration.Redis.{Redis, Hash}
use orchestration.Client.{
  Error, Result, ok, err, no_random, info, warn, error, Env, Client, pure, fail, try, handle,
  collect, ◌>>=◌, ◌>>◌, hash_set, hash_get, set_members, key_exists, now, random_hex, report,
}
use orchestration.Schema.Keys.{node_registry_key, node_status_key, node_capacity_key, pod_key}
use orchestration.Schema.Fields.{status_pending}
use orchestration.Schema.Codec.{
  DeploymentSpec, PodSpec, NodeCapacity, map_to_node_capacity, pod_to_map,
}
use orchestration.Capacity
use orchestration.Supervisor.Commands.{Command, command_start_pod, send_command}

pub record Candidate : Type 0 where
  pub node_id : Str
  pub capacity : NodeCapacity

-- The two tests of the pre-filter, on the reading that was taken.
unfoldable pub has_room : ℤ → ℤ → NodeCapacity → Bool
has_room cpu mem c =
    not (ltb_ℤ (sub64 c.total_cpu c.allocated_cpu) cpu)
    && not (ltb_ℤ (sub64 c.total_mem c.allocated_mem) mem)

module _ (fl : Float) where
  -- What is left of one dimension, as a share of its total.
  abbrev left_share : ℤ → ℤ → ℤ → fl.F
  left_share total alloc request =
      if ltb_ℤ (pos 0) total
      then fl.div (fl.of_int (sub64 (sub64 total alloc) request)) (fl.of_int total)
      else fl.of_int (pos 0)

  unfoldable pub score : ℤ → ℤ → Candidate → fl.F
  score cpu mem c =
      fl.add (left_share c.capacity.total_cpu c.capacity.allocated_cpu cpu)
        (left_share c.capacity.total_mem c.capacity.allocated_mem mem)

  -- Least leftover first; between equals, the lesser node id.
  unfoldable pub tighter : ℤ → ℤ → Candidate → Candidate → Bool
  tighter cpu mem a b =
      if fl.eq (score cpu mem a) (score cpu mem b)
      then str_lt a.node_id b.node_id
      else fl.lt (score cpu mem a) (score cpu mem b)

module _ {r : Redis} (fl : Float) (e : Env r) where
  when_live : Str → Client r (List Str)
  when_live node_id = do
    alive ← key_exists e (node_status_key node_id)
    pure (if alive then node_id ∷ [] else [])

  unfoldable pub live_nodes : Client r (List Str)
  unfolding when_live
  live_nodes = do
    registered ← set_members e node_registry_key
    live ← collect when_live registered
    pure (sort_by str_lt live)

  -- What the scheduler makes of a node's capacity hash; `[]` passes it over.
  consider : ℤ → ℤ → Str → Hash → Client r (List Candidate)
  consider cpu mem node_id [] = pure []
  consider cpu mem node_id (f ∷ fields) =
      handle (map_to_node_capacity (f ∷ fields))
        (λ c.
          pure (if has_room cpu mem c then record { node_id = node_id; capacity = c } ∷ [] else []))
        (λ _. do report e warn (codes "capacity_hash_malformed"); pure [])

  when_fitting : ℤ → ℤ → Str → Client r (List Candidate)
  unfolding consider
  when_fitting cpu mem node_id = do
    fields ← hash_get e (node_capacity_key node_id)
    consider cpu mem node_id fields

  unfoldable pub best_fit_order : ℤ → ℤ → Client r (List Candidate)
  unfolding when_fitting
  best_fit_order cpu mem = do
    live ← live_nodes
    fits ← collect (when_fitting cpu mem) live
    pure (sort_by (tighter fl cpu mem) fits)

  unfoldable pub release_after_failure : Str → DeploymentSpec → Client r Unit
  release_after_failure node_id dep = do
    outcome ← try (Capacity.release r e node_id dep.cpu_request dep.mem_request)
    handle outcome (λ _. pure tt) (λ _. report e error (codes "capacity_release_failed"))

  -- A dispatch that fails is only logged: the pod stays Pending until the next sweep.
  dispatch : Str → Str → Str → Client r Unit
  dispatch node_id deployment pod_id = do
    sent ← try (
        send_command e node_id
          (record { type = command_start_pod; deployment = deployment; pod_id = pod_id }))
    handle sent (λ _. pure tt) (λ _. report e warn (codes "start_command_dispatch_failed"))

  unfoldable pub pending_pod : DeploymentSpec → Str → Str → ℤ → PodSpec
  pending_pod dep pod_id node_id created_at = record {
    deployment = dep.name;
    pod_id = pod_id;
    status = status_pending;
    node_id = node_id;
    cpu_request = dep.cpu_request;
    mem_request = dep.mem_request;
    created_at = format_int created_at;
    pid = pos 0;
    started_at = [];
    restart_count = pos 0;
    consecutive_failures = pos 0;
    last_health_ok_at = [];
    backoff_next_seconds = pos 0;
    last_restart_at = [];
    pid_start_time = 0;
    host_port = pos 0;
  }

  -- The rest of a placement once the node's capacity is reserved.
  commit : DeploymentSpec → Str → Option Str → Client r Str
  unfolding dispatch pending_pod
  commit dep node_id none = do release_after_failure node_id dep; fail no_random
  commit dep node_id (some pod_id) = do
    created_at ← now e
    let pod = pending_pod dep pod_id node_id created_at
    written ← try (hash_set e (pod_key dep.name pod_id) (pod_to_map pod))
    handle written
        (λ _. do
          dispatch node_id dep.name pod_id
          report e info (codes "pod_scheduled")
          pure pod_id)
        (λ cause. do release_after_failure node_id dep; fail cause)

  place : DeploymentSpec → List Candidate → Client r Str
  unfolding commit
  place dep [] = pure []
  place dep (c ∷ rest) = do
    reserved ← Capacity.reserve r e c.node_id dep.cpu_request dep.mem_request
    let others = place dep rest
    if reserved then (do random ← random_hex e; commit dep c.node_id random) else others

  -- The new pod's id, or the empty string when no node took it.
  unfoldable pub schedule_one : DeploymentSpec → Client r Str
  unfolding place
  schedule_one dep = do
    candidates ← best_fit_order dep.cpu_request dep.mem_request
    place dep candidates

  keep_going : Str → Client r (List Str × Option Error) → Client r (List Str × Option Error)
  keep_going [] more = do report e warn (codes "pods_unschedulable"); pure ([], none)
  keep_going (c ∷ pod_id) more = do rest ← more; pure ((c ∷ pod_id) ∷ rest.0, rest.1)

  -- The pods created so far come back beside an error.
  rounds : ℕ → DeploymentSpec → Client r (List Str × Option Error)
  rounds zero dep = pure ([], none)
  rounds (suc n) dep = do
    placed ← try (schedule_one dep)
    let more = rounds n dep
    handle placed (λ pod_id. keep_going pod_id more) (λ cause. pure ([], some cause))

  unfoldable pub schedule_replicas : DeploymentSpec → ℤ → Client r (List Str × Option Error)
  unfolding rounds keep_going
  schedule_replicas dep (pos n) = rounds n dep
  schedule_replicas dep (negsuc n) = pure ([], none)
