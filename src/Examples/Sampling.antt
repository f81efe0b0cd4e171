-- ===== src/Examples/Sampling.antt =====
-- A sweep of the telemetry over the small cluster, and the choice of a host port there.
use orchestration.Prelude.{ℕ, suc, true, All, ◌/◌, ◌≡◌, ◌≤◌, refl, List, [], ◌∷◌, length}
use orchestration.Prelude.Int.{pos, pos_part, ◌*ℤ◌, ◌≤ℤ◌}
use orchestration.Prelude.Text.{Str, codes}
use orchestration.Prelude.Decimal.{format_int, parse_int64, all_digits}
use orchestration.Redis.Memory.{memory}
use orchestration.Client.{ok, World, scan_keys, ◌>>=◌, pure, call, try, collect, observe, hash_get}
use orchestration.Schema.Keys.{pod_key, pod_key_pattern, node_capacity_key, node_registry_key}
use orchestration.Schema.Codec.{pod_to_map, node_capacity_to_map}
use orchestration.Supervisor.Telemetry.{Baselines, Rate, collect_once}
use orchestration.Supervisor.Telemetry.Baselines.{IsMap, collect_once-Bounded}
use orchestration.Supervisor.Ports.{allocate_host_port, claimed_ports, first_free, candidates}
use orchestration.Supervisor.Ports.Choice.{Claims, allocate_host_port_lem}
use orchestration.Examples.{thousandths, quiet, quiet-Calm, start, cluster, laptop}

abbrev thousandths_rate : Rate thousandths
thousandths_rate = record {
  mul = λ x y. pos (pos_part (x *ℤ y) / 1000);
  to_int = λ x. pos (pos_part x / 1000);
}

-- Baselines of three pods that are gone.
abbrev stale : Baselines
stale =
    (codes "web/x", record { ticks = 5; at = pos 7 })
    ∷ (codes "web/y", record { ticks = 5; at = pos 7 })
    ∷ (codes "web/z", record { ticks = 5; at = pos 7 })
    ∷ []

abbrev pod_keys : List Str
pod_keys = pod_key (codes "web") (codes "a") ∷ pod_key (codes "web") (codes "b") ∷ []

abbrev scanned : World memory
scanned = record { db = cluster; tick = 1; log = []; acts = [] }

scan_pods : scan_keys quiet pod_key_pattern (start cluster) ≡ (ok pod_keys, scanned)
unfolding pod_key pod_to_map format_int scan_keys ◌>>=◌ pure call pod_key_pattern node_capacity_key
    node_registry_key node_capacity_to_map
scan_pods = refl

collect_once-Bounded_example :
    (last' : Baselines) × ((collect_once thousandths thousandths_rate quiet laptop
        (codes "n1")
        (pos 5)
        stale
        (start cluster)).0
      ≡ ok (last', ok tt))
    × IsMap last'
    × (length last' ≤ 2)
collect_once-Bounded_example =
    collect_once-Bounded thousandths thousandths_rate quiet laptop (codes "n1") (pos 5) (λ t. refl)
      stale pod_keys (start cluster) scanned ((refl, (refl, tt)), ((refl, tt), (tt, tt))) scan_pods

-- 8080 asks for 20080, which both pods of the node have.
chosen_port :
    (allocate_host_port quiet laptop (codes "n1") (pos 8080) (start cluster)).0 ≡ ok (pos 20000)
unfolding allocate_host_port claimed_ports first_free candidates pod_key pod_to_map format_int
    scan_keys ◌>>=◌ pure call pod_key_pattern node_capacity_key node_registry_key
    node_capacity_to_map parse_int64 all_digits try collect observe hash_get
chosen_port = refl

allocate_host_port_lem_example :
    (pos 20000 ≤ℤ pos 20000)
    × (pos 20000 ≤ℤ pos 60000)
    × All (λ key. ¬ Claims (codes "n1") (pos 20000) (memory.hgetall cluster key)) pod_keys
    × ((t : ℕ) × (true ≡ true)
        × ((allocate_host_port quiet laptop (codes "n1") (pos 8080) (start cluster)).1.tick
            ≡ suc t))
allocate_host_port_lem_example =
    allocate_host_port_lem quiet laptop (codes "n1") (pos 8080) (pos 20000) pod_keys (start cluster)
      scanned quiet-Calm scan_pods chosen_port
