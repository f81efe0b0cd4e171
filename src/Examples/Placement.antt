-- ===== src/Examples/Placement.antt =====
-- Reserving, releasing and placing on the small cluster.
use orchestration.Prelude.{◌≡◌, refl, ap, false, none, ◌||◌, if◌then◌else◌, All, arith}
use orchestration.Prelude.Int.{pos, ◌+ℤ◌, ◌-ℤ◌, ltb_ℤ, IsInt64}
use orchestration.Prelude.Text.{Str, codes, contains}
use orchestration.Prelude.Decimal.{format_int}
use orchestration.Redis.{IsExact, hset_all, hget}
use orchestration.Redis.Memory.{Memory, empty, memory, memory-laws}
use orchestration.Client.{ok}
use orchestration.Client.Keeps.{Keeps, KeepsIn}
use orchestration.Client.Returns.{Returns}
use orchestration.Capacity.{
  reserve_script, release_script, reserve, reserve_ok, reserve_no_headroom,
}
use orchestration.Capacity.Safe.{IsSafe}
use orchestration.Capacity.Reserve.{IsNode, reserve_script_lem, reserved, Keeps-reserve}
use orchestration.Capacity.Release.{release_script-IsSafe}
use orchestration.Capacity.Undo.{release_script-reserve_script}
use orchestration.Scheduler.{best_fit_order, schedule_replicas}
use orchestration.Scheduler.Order.{Fits, InOrder, best_fit_order_lem}
use orchestration.Scheduler.Safe.{schedule_replicas-Keeps}
use orchestration.Schema.Keys.{node_capacity_key, pod_key, deployment_key}
use orchestration.Schema.Fields.{field_last_scale_up_at}
use orchestration.Api.Store.ReadBack.{map_to_deployment-hset_all}
use orchestration.Schema.KeyLaws.{pod_key_injective}
use orchestration.Schema.Codec.{
  map_to_deployment, deployment_to_map, map_to_pod, pod_to_map, node_capacity_to_map,
}
use orchestration.Schema.RoundTrip.{IsDeployment, IsPod, map_to_pod-pod_to_map}
use orchestration.Examples.{
  thousandths, thousandths-laws, quiet, quiet-Stable, web, web_pod, cluster,
}

abbrev n1_key : Str
n1_key = node_capacity_key (codes "n1")

n1_node : IsNode memory memory-laws cluster n1_key (pos 1000) (pos 512) (pos 600) (pos 256)
unfolding format_int node_capacity_key pod_to_map node_capacity_to_map pod_key
n1_node = record {
  total_cpu = refl;
  total_mem = refl;
  allocated_cpu = refl;
  allocated_mem = refl;
  tc_exact = (omega arith, omega arith);
  tm_exact = (omega arith, omega arith);
  ac_exact = (omega arith, omega arith);
  am_exact = (omega arith, omega arith);
}

fits_cpu : IsInt64 (pos 600 +ℤ pos 300)
unfolding ◌+ℤ◌
fits_cpu = (omega arith, omega arith)

fits_mem : IsInt64 (pos 256 +ℤ pos 128)
unfolding ◌+ℤ◌
fits_mem = (omega arith, omega arith)

sum_cpu : IsExact (pos 600 +ℤ pos 300)
unfolding ◌+ℤ◌
sum_cpu = (omega arith, omega arith)

sum_mem : IsExact (pos 256 +ℤ pos 128)
unfolding ◌+ℤ◌
sum_mem = (omega arith, omega arith)

no_colon : contains b':' (codes "web") ≡ false
unfolding contains
no_colon = refl

reserve_script_lem_example : reserve_script memory n1_key (pos 300) (pos 128) cluster ≡ (
    if ltb_ℤ (pos 1000 -ℤ pos 600) (pos 300) || ltb_ℤ (pos 512 -ℤ pos 256) (pos 128)
    then (ok reserve_no_headroom, cluster)
    else (ok reserve_ok, reserved memory memory-laws n1_node (pos 300) (pos 128)))
reserve_script_lem_example =
    reserve_script_lem memory memory-laws n1_node (pos 300) (pos 128) fits_cpu fits_mem

Keeps-reserve_example :
    Keeps (IsSafe memory) (reserve memory quiet (codes "n1") (pos 300) (pos 128))
Keeps-reserve_example =
    Keeps-reserve memory memory-laws quiet (codes "n1") (pos 300) (pos 128) (omega arith)
      (omega arith) quiet-Stable

release_script-IsSafe_example :
    KeepsIn memory (IsSafe memory) (release_script memory n1_key (pos 300) (pos 128))
release_script-IsSafe_example =
    release_script-IsSafe memory memory-laws (pos 300) (pos 128) (omega arith) (omega arith) n1_key

granted : (reserve_script memory n1_key (pos 300) (pos 128) cluster).0 ≡ ok reserve_ok
unfolding ◌-ℤ◌
granted =
    ap (λ x. x.0)
      (reserve_script_lem memory memory-laws n1_node (pos 300) (pos 128) fits_cpu fits_mem)

release_script-reserve_script_example :
    IsNode memory memory-laws
      (release_script memory n1_key
        (pos 300)
        (pos 128)
        (reserve_script memory n1_key (pos 300) (pos 128) cluster).1).1
      n1_key
      (pos 1000)
      (pos 512)
      (pos 600)
      (pos 256)
release_script-reserve_script_example =
    release_script-reserve_script memory memory-laws n1_node (pos 300) (pos 128) (omega arith)
      (omega arith) sum_cpu sum_mem granted

best_fit_order_lem_example :
    Returns
      (λ cs. All (Fits (pos 300) (pos 128)) cs × InOrder thousandths (pos 300) (pos 128) cs)
      (best_fit_order thousandths quiet (pos 300) (pos 128))
best_fit_order_lem_example =
    best_fit_order_lem thousandths thousandths-laws quiet (pos 300) (pos 128)

schedule_replicas-Keeps_example :
    Keeps (IsSafe memory) (schedule_replicas thousandths quiet web (pos 2))
schedule_replicas-Keeps_example =
    schedule_replicas-Keeps memory memory-laws thousandths quiet quiet-Stable web (omega arith)
      (omega arith) (pos 2)

web-IsDeployment : IsDeployment web
web-IsDeployment = record {
  min_fits = (omega arith, omega arith);
  max_fits = (omega arith, omega arith);
  cpu_fits = (omega arith, omega arith);
  mem_fits = (omega arith, omega arith);
  desired_fits = (omega arith, omega arith);
  target_fits = (omega arith, omega arith);
  port_fits = (omega arith, omega arith);
}

-- The hash of the deployment before it is written once more.
abbrev written_before : Memory
written_before =
    hset_all memory empty (deployment_key (codes "web"))
      (deployment_to_map (record web { min_replicas = pos 3 }))

not_scaled_up :
    hget memory written_before (deployment_key (codes "web")) field_last_scale_up_at ≡ none
unfolding deployment_to_map deployment_key format_int
not_scaled_up = refl

map_to_deployment-hset_all_example :
    map_to_deployment (
      memory.hgetall
        (hset_all memory written_before (deployment_key (codes "web")) (deployment_to_map web))
        (deployment_key (codes "web")))
    ≡ ok web
map_to_deployment-hset_all_example =
    map_to_deployment-hset_all memory memory-laws written_before (deployment_key (codes "web")) web
      not_scaled_up tt web-IsDeployment

replica-IsPod : IsPod (web_pod (codes "a"))
replica-IsPod = record {
  cpu_fits = (omega arith, omega arith);
  mem_fits = (omega arith, omega arith);
  pid_fits = (omega arith, omega arith);
  restarts_fit = (omega arith, omega arith);
  failures_fit = (omega arith, omega arith);
  backoff_fits = (omega arith, omega arith);
  start_fits = omega arith;
  port_fits = (omega arith, omega arith);
}

map_to_pod-pod_to_map_example :
    map_to_pod (pod_to_map (web_pod (codes "a"))) ≡ ok (web_pod (codes "a"))
map_to_pod-pod_to_map_example = map_to_pod-pod_to_map (web_pod (codes "a")) replica-IsPod

pod_key_injective_example : (codes "web" ≡ codes "web") × (codes "a:b" ≡ codes "a:b")
pod_key_injective_example =
    pod_key_injective (codes "web") (codes "a:b") (codes "web") (codes "a:b") no_colon no_colon refl
