-- ===== src/Examples/Scheduling.antt =====
-- A placement that succeeds, on the small cluster.
use orchestration.Prelude.{◌≡◌, refl, true, All, arith}
use orchestration.Prelude.Int.{pos, ◌-ℤ◌}
use orchestration.Prelude.Text.{Str, codes}
use orchestration.Prelude.Decimal.{format_int}
use orchestration.Redis.Memory.{Memory, memory, memory-laws}
use orchestration.Schema.Keys.{node_registry_key, node_status_key, node_capacity_key, pod_key}
use orchestration.Schema.Codec.{pod_to_map, node_capacity_to_map}
use orchestration.Scheduler.{schedule_one}
use orchestration.Scheduler.Fits.{IsWhole, HasRoom}
use orchestration.Scheduler.Succeeds.{PlacedOn, schedule_one-places}
use orchestration.Examples.{thousandths, quiet, quiet-Calm, start, web, cluster}

-- The cluster, with the lease of its node.
abbrev leased : Memory
leased = memory.set_ex cluster (node_status_key (codes "n1")) (codes "ready") (pos 10)

n1-IsWhole : IsWhole memory-laws leased (codes "n1")
unfolding format_int node_capacity_key node_status_key pod_to_map node_capacity_to_map pod_key
n1-IsWhole = record {
  tc = pos 1000;
  tm = pos 512;
  ac = pos 600;
  am = pos 256;
  node = record {
    total_cpu = refl;
    total_mem = refl;
    allocated_cpu = refl;
    allocated_mem = refl;
    tc_exact = (omega arith, omega arith);
    tm_exact = (omega arith, omega arith);
    ac_exact = (omega arith, omega arith);
    am_exact = (omega arith, omega arith);
  };
}

members_whole : All (IsWhole memory-laws leased) (memory.smembers leased node_registry_key)
unfolding format_int node_capacity_key node_status_key pod_to_map node_capacity_to_map pod_key
    node_registry_key
members_whole = (n1-IsWhole, tt)

n1-HasRoom : HasRoom memory-laws (pos 300) (pos 128) leased (codes "n1")
unfolding format_int node_capacity_key node_status_key pod_to_map node_capacity_to_map pod_key
    node_registry_key ◌-ℤ◌ n1-IsWhole
n1-HasRoom = record { registered = refl; alive = refl; whole = n1-IsWhole; room = refl }

schedule_one-places_example :
    (node_id : Str) × (memory.exists leased (node_status_key node_id) ≡ true)
    × PlacedOn thousandths quiet web node_id leased
        (schedule_one thousandths quiet web (start leased))
schedule_one-places_example =
    schedule_one-places thousandths quiet web memory-laws (codes "n1") (start leased) quiet-Calm
      (λ n. (_, _, refl)) (omega arith, omega arith) (omega arith, omega arith) members_whole
      n1-HasRoom
