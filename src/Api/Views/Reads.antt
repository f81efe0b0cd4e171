-- ===== src/Api/Views/Reads.antt =====
-- internal/api/dashboard.go: a snapshot writes nothing.
use orchestration.Prelude.{ℕ, List, [], ◌∷◌}
use orchestration.Prelude.Int.{ℤ}
use orchestration.Prelude.Text.{Str}
use orchestration.Redis.{Redis, Hash}
use orchestration.Client.{Env}
use orchestration.Client.Keeps.{
  Keeps, Stable, flow_rules, Keeps-hash_get, Keeps-set_members, Keeps-key_exists, Keeps-scan_keys,
  Keeps-list_range,
}
use orchestration.Schema.Codec.{DeploymentSpec, NodeCapacity}
use orchestration.Api.Store.{list}
use orchestration.Api.Store.Reads.{Keeps-list}
use orchestration.Api.Views.{
  Counts, pod_view, pod_views, node_views, node_view, node_read, with_lease, deployment_views,
  deployment_view, observed_cpu, read_averages, snapshot,
}

module _ {r : Redis} {P : r.Db → Type 0} (e : Env r) (st : Stable e P) where
  Keeps-pod_view : (key : Str) → Keeps P (pod_view e key)
  unfolding pod_view
  Keeps-pod_view key = search (flow_rules, Keeps-hash_get e st)

  Keeps-pod_views : Keeps P (pod_views e)
  unfolding pod_views
  Keeps-pod_views = search (flow_rules, Keeps-scan_keys e st, Keeps-pod_view)

  Keeps-with_lease : (n : Counts) (id : Str) (c : NodeCapacity) → Keeps P (with_lease e n id c)
  unfolding with_lease
  Keeps-with_lease n id c = search (flow_rules, Keeps-key_exists e st)

  Keeps-node_read : (n : Counts) (id : Str) (h : Hash) → Keeps P (node_read e n id h)
  unfolding node_read
  Keeps-node_read n id [] = search flow_rules
  Keeps-node_read n id (f ∷ fields) = search (flow_rules, Keeps-with_lease)

  Keeps-node_view : (n : Counts) (id : Str) → Keeps P (node_view e n id)
  unfolding node_view
  Keeps-node_view n id = search (flow_rules, Keeps-hash_get e st, Keeps-node_read)

  Keeps-node_views : (n : Counts) → Keeps P (node_views e n)
  unfolding node_views
  Keeps-node_views n = search (flow_rules, Keeps-set_members e st, Keeps-node_view)

  Keeps-read_averages : (keys : List Str) (acc : ℤ × ℕ) → Keeps P (read_averages e keys acc)
  unfolding read_averages
  Keeps-read_averages [] acc = search flow_rules
  Keeps-read_averages (key ∷ keys) acc =
      search (flow_rules, Keeps-list_range e st, Keeps-read_averages keys)

  Keeps-observed_cpu : (name : Str) → Keeps P (observed_cpu e name)
  unfolding observed_cpu
  Keeps-observed_cpu name = search (flow_rules, Keeps-scan_keys e st, Keeps-read_averages)

  Keeps-deployment_view :
      (ready : Counts) (dep : DeploymentSpec) → Keeps P (deployment_view e ready dep)
  unfolding deployment_view
  Keeps-deployment_view ready dep = search (flow_rules, Keeps-observed_cpu)

  listing : Keeps P (list e)
  listing = Keeps-list e st

  Keeps-deployment_views : (ready : Counts) → Keeps P (deployment_views e ready)
  unfolding deployment_views
  Keeps-deployment_views ready = search (flow_rules, listing, Keeps-deployment_view)

  pub Keeps-snapshot : Keeps P (snapshot e)
  unfolding snapshot
  Keeps-snapshot = search (flow_rules, Keeps-pod_views, Keeps-node_views, Keeps-deployment_views)
