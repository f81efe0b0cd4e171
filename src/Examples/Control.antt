-- ===== src/Examples/Control.antt =====
-- The controllers and the API on the small cluster.
use orchestration.Prelude.{
  ℕ, ◌+◌, ◌*◌, ◌≤◌, ◌<◌, ◌≡◌, ◌≢◌, refl, true, false, Bool, Option, none, some, [], ◌∷◌, ◌++◌, ◌⊎◌,
  ◌↔◌, All, arith, length,
}
use mathlib.Core.List.{Perm}
use Prim.Native.Nat.{min}
use orchestration.Prelude.Int.{pos, ◌≤ℤ◌, ◌<ℤ◌, ◌-ℤ◌, ◌*ℤ◌}
use orchestration.Prelude.Text.{Str, codes, contains, str_eq, has_prefix, has_suffix, trim_suffix}
use orchestration.Prelude.Decimal.{scan_int, format_int}
use orchestration.Redis.{hset_all}
use orchestration.Redis.Memory.{Memory, empty, memory, memory-laws, memory-scans, memory-scans_left}
use orchestration.Client.{Result, ok}
use orchestration.Client.Keeps.{Keeps}
use orchestration.Client.Returns.{Returns}
use orchestration.Controller.Replica.{reconcile_all}
use orchestration.Controller.Replica.Safe.{reconcile_all-Keeps}
use orchestration.Capacity.Sane.{IsSane}
use orchestration.Capacity.Safe.{IsSafe}
use orchestration.Schema.Keys.{
  node_capacity_key, node_registry_key, node_status_key, pod_key_pattern, deployment_key,
}
use orchestration.Schema.Fields.{status_evicted, field_last_scale_up_at, field_last_scale_down_at}
use orchestration.Schema.Codec.{DeploymentSpec, deployment_to_map}
use orchestration.Controller.Autoscale.{
  Settings, AutoscaleConfig, wanted, ceil_div, scaled_down, scaled_up, down_cooldown, later,
  settings_of, decide, Reply, rescaled,
}
use orchestration.Controller.Autoscale.Decide.{wanted_least, decide_lem, no_flap}
use orchestration.Controller.Replica.{no_delta, converge, select_victims, removed_before}
use orchestration.Controller.Replica.Victims.{
  select_victims_lem, select_victims-priority, kept_pods, IsFairChoice,
}
use orchestration.Controller.Replica.Deltas.{converge-Bounded, Bounded}
use orchestration.Controller.Health.{node_id_from_status_key, evict_script, sweep_once}
use orchestration.Controller.Health.Leases.{node_id_from_status_key_lem}
use orchestration.Controller.Health.Frame.{Evicts}
use orchestration.Controller.Health.Ends.{evict_script_lem}
use orchestration.Controller.Health.Safe.{sweep_once-Keeps}
use orchestration.Api.Validate.{DeploymentRequest, validate, trim_space, is_deployment_name}
use orchestration.Api.Validate.Names.{IsLabel, is_deployment_name_iff}
use orchestration.Api.Validate.Accepts.{IsValid, validate_lem}
use orchestration.Api.Store.{apply}
use orchestration.Api.Store.Bounds.{InBounds, apply-InBounds}
use orchestration.Api.Store.Applies.{Held, Spells, Continues, apply_lem}
use orchestration.Examples.{
  thousandths, quiet, quiet-Stable, quiet-sane, start, web, web_pod, cluster,
}

-- A deployment of two replicas at 90% of a target of 50%.
abbrev busy : Settings
busy = record {
  desired = pos 2;
  min_r = pos 1;
  max_r = pos 5;
  target = pos 50;
  last_up = pos 0;
  last_down = pos 0;
}

wants_four : wanted busy (pos 90) ≡ pos 4
unfolding wanted ◌*ℤ◌ ceil_div
wants_four = refl

wanted_least_example : (pos 4 <ℤ pos 5 → 2 * 90 ≤ 4 * 50) × (pos 1 <ℤ pos 4 → 4 * 50 < 2 * 90 + 50)
wanted_least_example = wanted_least busy 2 90 49 4 refl refl (omega arith) wants_four

-- The deployment as it is stored; a run at 1700000200 sees 90%, and one ten seconds later 10%.
abbrev stored_web : Memory
stored_web = hset_all memory empty (deployment_key (codes "web")) (deployment_to_map web)

abbrev web_key : Str
web_key = deployment_key (codes "web")

abbrev first_run : Result Reply × Memory
first_run =
    decide memory web_key (pos 1700000200) (pos 30) (pos 180)
      (settings_of memory stored_web web_key) (pos 90) stored_web

abbrev grown : Reply
grown = record { outcome = scaled_up; from = pos 2; to = pos 4; observed = pos 90 }

abbrev held : Reply
held = record { outcome = down_cooldown; from = pos 4; to = pos 4; observed = pos 10 }

first_run_grows : first_run.0 ≡ ok grown
unfolding decide wanted settings_of deployment_to_map deployment_key scan_int format_int ceil_div
    ◌*ℤ◌ ◌-ℤ◌
first_run_grows = refl

second_run_holds :
    (decide memory web_key
      (pos 1700000210)
      (pos 30)
      (pos 180)
      (settings_of memory first_run.1 web_key)
      (pos 10)
      first_run.1).0
    ≡ ok held
unfolding decide wanted settings_of deployment_to_map deployment_key scan_int format_int ceil_div
    ◌*ℤ◌ ◌-ℤ◌
second_run_holds = refl

bounds_ordered :
    (settings_of memory stored_web web_key).min_r ≤ℤ (settings_of memory stored_web web_key).max_r
unfolding settings_of deployment_to_map deployment_key scan_int format_int
bounds_ordered = omega arith

four_is_not_two : pos 4 ≢ pos 2
four_is_not_two h = cc

ten_seconds : pos 1700000210 -ℤ pos 1700000200 <ℤ pos 180
unfolding ◌-ℤ◌
ten_seconds = omega arith

decide_lem_example :
    let s = settings_of memory stored_web web_key in
    ((pos 4 ≡ pos 2) × (first_run.1 ≡ stored_web))
    ⊎ ((s.min_r ≤ℤ pos 4)
        × (pos 4 ≤ℤ s.max_r)
        × (((scaled_up ≡ scaled_up)
              × (pos 2 <ℤ pos 4)
              × (pos 30 ≤ℤ pos 1700000200 -ℤ s.last_up)
              × (first_run.1
                  ≡ rescaled memory stored_web web_key field_last_scale_up_at
                      (pos 4)
                      (pos 1700000200)))
            ⊎ ((scaled_up ≡ scaled_down)
                × (pos 4 <ℤ pos 2)
                × (pos 180 ≤ℤ pos 1700000200 -ℤ later s.last_up s.last_down)
                × (first_run.1
                    ≡ rescaled memory stored_web web_key field_last_scale_down_at
                        (pos 4)
                        (pos 1700000200)))))
decide_lem_example =
    decide_lem memory memory-laws web_key (pos 1700000200) (pos 30) (pos 180)
      (settings_of memory stored_web web_key) (pos 90) stored_web grown bounds_ordered
      first_run_grows

no_flap_example : down_cooldown ≢ scaled_down
no_flap_example =
    no_flap memory memory-laws web_key (pos 1700000200) (pos 1700000210) (pos 30) (pos 180) (pos 90)
      (pos 10) stored_web grown held bounds_ordered (omega arith, omega arith) first_run_grows
      four_is_not_two ten_seconds second_run_holds

select_victims_lem_example :
    let pods = web_pod (codes "a") ∷ web_pod (codes "b") ∷ [] in
    let victims = select_victims pods (pos 1) in
    (length victims ≡ min 1 2)
    × Perm (victims ++ kept_pods pods 1) pods
    × All (λ v. All (λ k. removed_before k v ≡ false) (kept_pods pods 1)) victims
select_victims_lem_example = select_victims_lem (web_pod (codes "a") ∷ web_pod (codes "b") ∷ []) 1

select_victims-priority_example :
    let pods = web_pod (codes "a") ∷ web_pod (codes "b") ∷ [] in
    All (λ v. All (λ k. IsFairChoice v k) (kept_pods pods 1)) (select_victims pods (pos 1))
select_victims-priority_example =
    select_victims-priority (web_pod (codes "a") ∷ web_pod (codes "b") ∷ []) 1

converge-Bounded_example :
    Returns
      (Bounded thousandths quiet 2 1)
      (converge thousandths quiet web (codes "web") (web_pod (codes "a") ∷ []) no_delta)
converge-Bounded_example =
    converge-Bounded thousandths quiet web (codes "web") (web_pod (codes "a") ∷ []) no_delta 2 refl
      (omega arith) (omega arith) refl refl

lease_of_status : node_id_from_status_key (codes "node:status") ≡ some (codes "status")
unfolding node_id_from_status_key has_prefix has_suffix trim_suffix contains
lease_of_status = refl

node_id_from_status_key_lem_example :
    (str_eq (codes "status") [] ≡ false)
    × (contains b':' (codes "status") ≡ false)
    × ((codes "node:status" ≡ node_status_key (codes "status"))
        ⊎ (codes "node:status" ≡ codes "node:status"))
node_id_from_status_key_lem_example =
    node_id_from_status_key_lem (codes "node:status") (codes "status") lease_of_status

evict_script_lem_example :
    let run =
      evict_script memory 5
        (node_capacity_key (codes "n1"))
        node_registry_key
        (codes "n1")
        pod_key_pattern
        status_evicted
        cluster in
    ((n : ℕ) × (run.0 ≡ ok n))
    × Evicts memory memory-laws
        (codes "n1")
        status_evicted
        memory-scans
        (node_capacity_key (codes "n1"))
        node_registry_key
        pod_key_pattern
        cluster
        run.1
evict_script_lem_example =
    evict_script_lem memory memory-laws memory-scans (codes "n1") status_evicted 5
      (node_capacity_key (codes "n1")) node_registry_key pod_key_pattern cluster
      (omega (arith, memory-scans_left cluster 0))

sweep_once-Keeps_example : Keeps (IsSafe memory) (sweep_once quiet)
sweep_once-Keeps_example = sweep_once-Keeps memory memory-laws quiet quiet-Stable

abbrev seconds : AutoscaleConfig
seconds = record { interval = pos 15; scale_up_cooldown = pos 30; scale_down_cooldown = pos 180 }

reconcile_all-Keeps_example : Keeps (IsSane memory) (reconcile_all thousandths quiet)
reconcile_all-Keeps_example = reconcile_all-Keeps memory memory-laws thousandths quiet quiet-sane

abbrev request : DeploymentRequest
request = record {
  name = codes " web ";
  min_replicas = some (pos 1);
  max_replicas = some (pos 3);
  target_cpu_percent = some (pos 50);
  cpu_request = some (pos 300);
  mem_request = some (pos 128);
  exec_path = codes "/bin/web";
  port = some (pos 8080);
}

is_deployment_name_iff_example : (is_deployment_name (codes "web") ≡ true) ↔ IsLabel (codes "web")
is_deployment_name_iff_example = is_deployment_name_iff (codes "web")

validate_lem_example : (validate request ≡ none) ↔ IsValid request
validate_lem_example = validate_lem request

request-accepted : validate request ≡ none
unfolding validate has_prefix
request-accepted = refl

request-IsValid : IsValid request
request-IsValid = (validate_lem request).0 request-accepted

apply-InBounds_example :
    Returns (λ x. InBounds x.0 × (x.0.name ≡ trim_space (codes " web "))) (apply quiet request)
apply-InBounds_example = apply-InBounds quiet request request-IsValid

apply_lem_example :
    (old : Option DeploymentSpec) × (dep : DeploymentSpec) × (there : Bool) × Held
      (memory.hgetall stored_web (deployment_key (trim_space request.name)))
      old
    × Spells request dep
    × Continues old (pos 1700000000) dep there
    × (apply quiet request (start stored_web) ≡ (
      ok (dep, there),
      record (start stored_web) {
        db =
            hset_all memory stored_web
              (deployment_key (trim_space request.name))
              (deployment_to_map dep);
        tick = 2;
      },
    ))
apply_lem_example = apply_lem quiet request (start stored_web) request-IsValid refl refl
