-- ===== src/Api/Views.antt =====
-- internal/api/dashboard.go: the cluster as the dashboard shows it. Every view is read from the
-- database and writes nothing.
pub mod Consistent
pub mod Reads
use orchestration.Prelude.{
  ℕ, zero, suc, ◌+◌, ◌/◌, ◌≡◌, Bool, true, false, Option, none, some, List, [], ◌∷◌, ◌==◌,
  if◌then◌else◌,
}
use orchestration.Prelude.Int.{ℤ, pos, negsuc, add64}
use orchestration.Prelude.Text.{Str, codes, str_eq, str_lt}
use orchestration.Prelude.Decimal.{parse_int64}
use orchestration.Prelude.Sort.{sort_by}
use orchestration.Redis.{Redis, Hash}
use orchestration.Client.{
  Result, ok, err, Env, Client, pure, try, handle, collect, ◌>>=◌, hash_get, set_members,
  key_exists, scan_keys, list_range,
}
use orchestration.Schema.Keys.{
  pod_key_pattern, node_registry_key, node_capacity_key, node_status_key,
}
use orchestration.Schema.Fields.{status_running}
use orchestration.Schema.Codec.{
  DeploymentSpec, PodSpec, NodeCapacity, map_to_pod, map_to_node_capacity,
}
use orchestration.Controller.Autoscale.{telemetry_pattern}
use orchestration.Api.Store.{list}

pub record NodeView : Type 0 where
  pub node_id : Str
  pub ready : Bool
  pub total_cpu : ℤ
  pub allocated_cpu : ℤ
  pub total_mem : ℤ
  pub allocated_mem : ℤ
  pub pod_count : ℕ

pub record DeploymentView : Type 0 where
  pub name : Str
  pub desired_replicas : ℤ
  pub ready_replicas : ℕ
  pub min_replicas : ℤ
  pub max_replicas : ℤ
  pub target_cpu_percent : ℤ
  pub observed_cpu : ℤ

pub record PodView : Type 0 where
  pub pod_id : Str
  pub deployment : Str
  pub node_id : Str
  pub status : Str
  pub host_port : ℤ
  pub restart_count : ℤ

-- The snapshot without its log lines, which sendSnapshot adds.
pub record StateSnapshot : Type 0 where
  pub nodes : List NodeView
  pub deployments : List DeploymentView
  pub pods : List PodView

-- A Go map from names to counts; the counts are of entries of a list, below 2^63.
abbrev pub Counts : Type 0
Counts = List (Str × ℕ)

unfoldable pub bump : Str → Counts → Counts
bump name [] = (name, 1) ∷ []
bump name ((n, k) ∷ counts) =
    if str_eq n name then (n, k + 1) ∷ counts else (n, k) ∷ bump name counts

-- What a missing name reads is zero.
unfoldable pub count_of : Str → Counts → ℕ
count_of name [] = 0
count_of name ((n, k) ∷ counts) = if str_eq n name then k else count_of name counts

-- The pods of each node, and the running pods of each deployment.
unfoldable pub tally : List PodView → Counts × Counts → Counts × Counts
unfolding bump
tally [] counts = counts
tally (pod ∷ pods) (by_node, ready) = tally pods (
  bump pod.node_id by_node,
  (if str_eq pod.status status_running then bump pod.deployment ready else ready),
)

-- Go's division of integers, which truncates; the divisor is a count.
unfoldable pub quotient : ℤ → ℕ → ℤ
quotient (pos n) k = pos (n / k)
quotient (negsuc n) k = let q = suc n / k in elim q [ zero ↦ pos 0 | suc m ↦ negsuc m ]

-- A sample that is no number is passed over.
unfoldable pub sample_sum : List Str → ℤ × ℕ → ℤ × ℕ
sample_sum [] acc = acc
sample_sum (raw ∷ samples) (sum, count) =
    sample_sum samples
      (elim (parse_int64 raw) [ none ↦ (sum, count) | some v ↦ (add64 sum v, count + 1) ])

unfoldable pub with_average : ℤ × ℕ → ℤ × ℕ → ℤ × ℕ
unfolding quotient
with_average (sum, zero) acc = acc
with_average (sum, suc n) (total, pods) = (add64 total (quotient sum (suc n)), pods + 1)

unfoldable pub average : ℤ × ℕ → ℤ
unfolding quotient
average (total, zero) = pos 0
average (total, suc n) = quotient total (suc n)

unfoldable pub view_of_pod : PodSpec → PodView
view_of_pod pod = record {
  pod_id = pod.pod_id;
  deployment = pod.deployment;
  node_id = pod.node_id;
  status = pod.status;
  host_port = pod.host_port;
  restart_count = pod.restart_count;
}

-- By deployment, then by id.
unfoldable pub shown_before : PodView → PodView → Bool
shown_before a b =
    if str_eq a.deployment b.deployment
    then str_lt a.pod_id b.pod_id
    else str_lt a.deployment b.deployment

abbrev pod_views_of : Hash → List PodView
pod_views_of [] = []
pod_views_of (f ∷ fields) = handle (map_to_pod (f ∷ fields)) (λ pod. view_of_pod pod ∷ []) (λ _. [])

module _ {r : Redis} (e : Env r) where
  pod_view : Str → Client r (List PodView)
  unfolding view_of_pod
  pod_view key = do
    fields ← try (hash_get e key)
    pure (handle fields (λ h. pod_views_of h) (λ _. []))

  unfoldable pub pod_views : Client r (List PodView)
  unfolding pod_view shown_before
  pod_views = do
    keys ← scan_keys e pod_key_pattern
    views ← collect pod_view keys
    pure (sort_by shown_before views)

  -- The lease of a node whose capacity could be read; a failed look counts as no lease.
  with_lease : Counts → Str → NodeCapacity → Client r (List NodeView)
  with_lease by_node node_id capacity = do
    ready ← try (key_exists e (node_status_key node_id))
    pure (
        record {
          node_id = node_id;
          ready = handle ready (λ there. there) (λ _. false);
          total_cpu = capacity.total_cpu;
          allocated_cpu = capacity.allocated_cpu;
          total_mem = capacity.total_mem;
          allocated_mem = capacity.allocated_mem;
          pod_count = count_of node_id by_node;
        }
        ∷ [])

  node_read : Counts → Str → Hash → Client r (List NodeView)
  unfolding with_lease
  node_read by_node node_id [] = pure []
  node_read by_node node_id (f ∷ fields) =
      handle (map_to_node_capacity (f ∷ fields)) (λ c. with_lease by_node node_id c) (λ _. pure [])

  node_view : Counts → Str → Client r (List NodeView)
  unfolding node_read
  node_view by_node node_id = do
    fields ← try (hash_get e (node_capacity_key node_id))
    handle fields (λ h. node_read by_node node_id h) (λ _. pure [])

  unfoldable pub node_views : Counts → Client r (List NodeView)
  unfolding node_view
  node_views by_node = do
    registered ← set_members e node_registry_key
    collect (node_view by_node) (sort_by str_lt registered)

  read_averages : List Str → ℤ × ℕ → Client r (ℤ × ℕ)
  unfolding sample_sum with_average
  read_averages [] acc = pure acc
  read_averages (key ∷ keys) acc = do
    samples ← try (list_range e key (negsuc 2) (negsuc 0))
    read_averages keys (handle samples (λ s. with_average (sample_sum s (pos 0, 0)) acc) (λ _. acc))

  -- Any error reads as no load.
  unfoldable pub observed_cpu : Str → Client r ℤ
  unfolding read_averages average
  observed_cpu deployment = do
    keys ← try (scan_keys e (telemetry_pattern deployment))
    handle keys (λ ks. do acc ← read_averages ks (pos 0, 0); pure (average acc)) (λ _. pure (pos 0))

  deployment_view : Counts → DeploymentSpec → Client r (List DeploymentView)
  unfolding observed_cpu
  deployment_view ready dep = do
    cpu ← observed_cpu dep.name
    pure (
        record {
          name = dep.name;
          desired_replicas = dep.desired_replicas;
          ready_replicas = count_of dep.name ready;
          min_replicas = dep.min_replicas;
          max_replicas = dep.max_replicas;
          target_cpu_percent = dep.target_cpu_percent;
          observed_cpu = cpu;
        }
        ∷ [])

  unfoldable pub deployment_views : Counts → Client r (List DeploymentView)
  unfolding deployment_view
  deployment_views ready = do
    deps ← list e
    views ← collect (deployment_view ready) deps
    pure (sort_by (λ a b. str_lt a.name b.name) views)

  unfoldable pub snapshot : Client r StateSnapshot
  unfolding pod_views node_views deployment_views tally
  snapshot = do
    pods ← pod_views
    let counts = tally pods ([], [])
    nodes ← node_views counts.0
    deployments ← deployment_views counts.1
    pure (record { nodes = nodes; deployments = deployments; pods = pods })
