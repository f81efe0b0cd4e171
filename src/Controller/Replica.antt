-- ===== src/Controller/Replica.antt =====
-- internal/controller/replica.go: the delta engine that keeps the number of pods of a deployment at
-- its desired count, the sweep over all deployments, and the removal of pods.
pub mod Victims
pub mod Deltas
pub mod Removes
pub mod Safe
use orchestration.Prelude.{
  ℕ, zero, suc, ◌+◌, ◌≡◌, Bool, true, false, not, ◌&&◌, ◌||◌, Option, none, some, List, [], ◌∷◌,
  ◌++◌, ltb, ◌==◌, if◌then◌else◌, any, keep, length, take,
}
use orchestration.Prelude.Int.{ℤ, pos, pos_part, sub64, ltb_ℤ}
use orchestration.Prelude.Text.{Str, codes, str_eq, str_lt, trim_prefix}
use orchestration.Prelude.Sort.{sort_by}
use orchestration.Prelude.Float.{Float}
use orchestration.Redis.{Redis, Hash}
use orchestration.Client.{
  Error, Result, ok, err, malformed, invalid, interrupted, info, warn, error, Env, Client, pure,
  fail, try, handle, collect, ◌>>=◌, ◌>>◌, hash_get, delete_key, scan_keys, cancelled, report,
}
use orchestration.Schema.Keys.{
  deployment_key, deployment_key_pattern, deployment_pods_pattern, pod_key, pod_key_pattern,
  telemetry_cpu_key,
}
use orchestration.Schema.Fields.{
  status_pending, status_failed, status_evicted, status_crash_loop_back_off, status_unschedulable,
  consumes_capacity,
}
use orchestration.Schema.Codec.{DeploymentSpec, PodSpec, map_to_deployment, map_to_pod}
use orchestration.Capacity
use orchestration.Supervisor.Commands.{Command, command_stop_pod, send_command}
use orchestration.Scheduler.{live_nodes, schedule_replicas}

pub record Delta : Type 0 where
  pub deployment : Str
  pub desired : ℤ
  pub observed : ℕ
  pub created : ℕ
  pub removed : ℕ

abbrev pub no_delta : Delta
no_delta = record { deployment = []; desired = pos 0; observed = 0; created = 0; removed = 0 }

-- How little a pod of this status is worth keeping: lower is removed sooner.
unfoldable pub status_priority : Str → ℕ
status_priority status =
    if str_eq status status_unschedulable
    then 0
    else if str_eq status status_failed
    then 1
    else if str_eq status status_crash_loop_back_off
    then 2
    else if str_eq status status_pending
    then 3
    else 4

-- Lower priority first; then the later creation time; then the greater pod id.
unfoldable pub removed_before : PodSpec → PodSpec → Bool
removed_before a b =
    if not (status_priority a.status == status_priority b.status)
    then ltb (status_priority a.status) (status_priority b.status)
    else if not (str_eq a.created_at b.created_at)
    then str_lt b.created_at a.created_at
    else str_lt b.pod_id a.pod_id

-- The first `count` pods in that order, or all of them. A negative count, which no caller passes and
-- on which Go's slice would panic, selects none.
unfoldable pub select_victims : List PodSpec → ℤ → List PodSpec
select_victims pods count =
    let ranked = sort_by removed_before pods in
    if ltb_ℤ (pos (length ranked)) count then ranked else take (pos_part count) ranked

abbrev evicted_ids : List PodSpec → List Str
evicted_ids [] = []
evicted_ids (p ∷ pods) =
    if str_eq p.status status_evicted then p.pod_id ∷ evicted_ids pods else evicted_ids pods

abbrev live_pods : List PodSpec → List PodSpec
live_pods = keep (λ p. not (str_eq p.status status_evicted))

module _ {r : Redis} (fl : Float) (e : Env r) where
  -- One key of a pod scan: nothing where the hash is gone or unreadable.
  readable_pod : Str → Hash → Client r (List PodSpec)
  readable_pod key [] = pure []
  readable_pod key (f ∷ fields) =
      handle (map_to_pod (f ∷ fields)) (λ p. pure (p ∷ []))
        (λ _. do report e warn (codes "pod_parse_failed"); pure [])

  read_pod : Str → Client r (List PodSpec)
  unfolding readable_pod
  read_pod key = do fields ← hash_get e key; readable_pod key fields

  unfoldable pub pods_for_deployment : Str → Client r (List PodSpec)
  unfolding read_pod
  pods_for_deployment deployment = do
    keys ← scan_keys e (deployment_pods_pattern deployment)
    collect read_pod keys

  -- Capacity goes back before the record is deleted.
  unfoldable pub force_remove : PodSpec → Client r Unit
  force_remove pod = do
    (if not (str_eq pod.node_id []) && consumes_capacity pod.status
        then Capacity.release r e pod.node_id pod.cpu_request pod.mem_request
        else pure tt)
    delete_key e
        (pod_key pod.deployment pod.pod_id ∷ telemetry_cpu_key pod.deployment pod.pod_id ∷ [])

  -- A live node stops its own pod; a pod of any other node is removed here.
  remove_one : List Str → Str → PodSpec → Client r Unit
  remove_one live deployment pod =
      if any (str_eq pod.node_id) live
      then send_command e pod.node_id
          (record { type = command_stop_pod; deployment = deployment; pod_id = pod.pod_id })
      else force_remove pod

  abbrev failure_event : List Str → PodSpec → Str
  failure_event live pod =
      if any (str_eq pod.node_id) live
      then codes "stop_command_dispatch_failed"
      else codes "force_remove_failed"

  -- The count of removals comes back beside an error.
  one_more : ℕ × Option Error → ℕ × Option Error
  one_more (n, cause) = (n + 1, cause)

  remove_failed : List Str → PodSpec → Client r (ℕ × Option Error) → Client r (ℕ × Option Error)
  remove_failed live pod more = do
    done ← cancelled e
    if done then pure (0, some interrupted) else (do report e warn (failure_event live pod); more)

  remove_loop : List Str → Str → List PodSpec → Client r (ℕ × Option Error)
  unfolding remove_one remove_failed one_more
  remove_loop live deployment [] = pure (0, none)
  remove_loop live deployment (pod ∷ pods) = do
    outcome ← try (remove_one live deployment pod)
    let more = remove_loop live deployment pods
    handle outcome (λ _. do rest ← more; pure (one_more rest)) (λ _. remove_failed live pod more)

  remove_listed : Str → List PodSpec → Client r (ℕ × Option Error)
  unfolding remove_loop
  remove_listed deployment [] = pure (0, none)
  remove_listed deployment (p ∷ pods) = do
    live ← try (live_nodes fl e)
    handle live (λ nodes. remove_loop nodes deployment (p ∷ pods)) (λ cause. pure (0, some cause))

  -- `none` is Go's nil: every pod of the deployment.
  unfoldable pub remove_pods : Str → Option (List PodSpec) → Client r (ℕ × Option Error)
  unfolding remove_listed
  remove_pods deployment none = do
    all ← try (pods_for_deployment deployment)
    handle all (remove_listed deployment) (λ cause. pure (0, some cause))
  remove_pods deployment (some victims) = remove_listed deployment victims

  abbrev record_keys : Str → List Str → List Str
  record_keys deployment [] = []
  record_keys deployment (id ∷ ids) =
      pod_key deployment id ∷ telemetry_cpu_key deployment id ∷ record_keys deployment ids

  unfoldable pub delete_pod_records : Str → List Str → Client r Unit
  delete_pod_records deployment ids = delete_key e (record_keys deployment ids)

  drop_evicted : Str → List Str → Client r Unit
  drop_evicted name [] = pure tt
  drop_evicted name (id ∷ ids) = delete_pod_records name (id ∷ ids)

  -- The `switch` of the delta engine, on the pods that count.
  unfoldable pub converge :
      DeploymentSpec → Str → List PodSpec → Delta → Client r (Delta × Option Error)
  converge dep name live delta =
      if ltb_ℤ (pos (length live)) dep.desired_replicas
      then (do
        outcome ← schedule_replicas fl e dep (sub64 dep.desired_replicas (pos (length live)))
        pure (record delta { created = length outcome.0 }, outcome.1))
      else if ltb_ℤ dep.desired_replicas (pos (length live))
      then (do
        outcome ←
            remove_pods name
              (some (select_victims live (sub64 (pos (length live)) dep.desired_replicas)))
        pure (record delta { removed = outcome.0 }, outcome.1))
      else pure (delta, none)

  settle_pods : DeploymentSpec → Str → List PodSpec → Client r (Delta × Option Error)
  unfolding drop_evicted converge
  settle_pods dep name pods =
      let live = live_pods pods in
      let delta : Delta = record {
        deployment = name;
        desired = dep.desired_replicas;
        observed = length live;
        created = 0;
        removed = 0;
      } in
      (do
        dropped ← try (drop_evicted name (evicted_ids pods))
        handle dropped (λ _. converge dep name live delta) (λ cause. pure (delta, some cause)))

  reconcile_fields : Str → Hash → Client r (Delta × Option Error)
  unfolding settle_pods
  reconcile_fields name [] = do
    outcome ← remove_pods name none
    pure (record no_delta { deployment = name; removed = outcome.0 }, outcome.1)
  reconcile_fields name (f ∷ fields) =
      handle (map_to_deployment (f ∷ fields))
        (λ dep. do
          pods ← try (pods_for_deployment name)
          handle pods (settle_pods dep name) (λ cause. pure (no_delta, some cause)))
        (λ cause. pure (no_delta, some cause))

  unfoldable pub reconcile_deployment : Str → Client r (Delta × Option Error)
  unfolding reconcile_fields
  reconcile_deployment [] = pure (no_delta, some invalid)
  reconcile_deployment (c ∷ name) = do
    fields ← try (hash_get e (deployment_key (c ∷ name)))
    handle fields (reconcile_fields (c ∷ name)) (λ cause. pure (no_delta, some cause))

  -- A pod that no known deployment claims, read during the orphan sweep.
  orphan_of : List Str → Hash → List PodSpec
  orphan_of known [] = []
  orphan_of known (f ∷ fields) = elim (map_to_pod (f ∷ fields)) [
    | err _ ↦ []
    | ok pod ↦
        if str_eq pod.deployment [] || any (str_eq pod.deployment) known then [] else pod ∷ []
  ]

  read_orphan : List Str → Str → Client r (List PodSpec)
  unfolding orphan_of
  read_orphan known key = do
    fields ← try (hash_get e key)
    handle fields (λ h. pure (orphan_of known h)) (λ _. pure [])

  -- The map from deployment to orphans; Go walks it in any order, here in that of first appearance.
  add_orphan : PodSpec → List (Str × List PodSpec) → List (Str × List PodSpec)
  add_orphan pod [] = (pod.deployment, pod ∷ []) ∷ []
  add_orphan pod ((name, pods) ∷ groups) =
      if str_eq name pod.deployment
      then (name, pods ++ pod ∷ []) ∷ groups
      else (name, pods) ∷ add_orphan pod groups

  by_deployment : List PodSpec → List (Str × List PodSpec) → List (Str × List PodSpec)
  unfolding add_orphan
  by_deployment [] groups = groups
  by_deployment (pod ∷ pods) groups = by_deployment pods (add_orphan pod groups)

  reap_groups : List (Str × List PodSpec) → Client r Unit
  reap_groups [] = pure tt
  reap_groups ((name, pods) ∷ groups) = do
    outcome ← remove_pods name (some pods)
    let more = reap_groups groups
    elim outcome.1 [
      | some cause ↦ fail cause
      | none ↦ do
        (if ltb 0 outcome.0 then report e info (codes "orphan_pods_reaped") else pure tt)
        more
    ]

  unfoldable pub reap_orphan_pods : List Str → Client r Unit
  unfolding read_orphan by_deployment reap_groups
  reap_orphan_pods known = do
    keys ← scan_keys e pod_key_pattern
    orphans ← collect (read_orphan known) keys
    reap_groups (by_deployment orphans [])

  -- One deployment of the sweep: its delta, or its error.
  abbrev acted : Delta → Bool
  acted d = ltb 0 d.created || ltb 0 d.removed

  after_delta : Delta → Client r (List Delta × Option Error) → Client r (List Delta × Option Error)
  after_delta d more = do
    (if acted d then report e info (codes "sweep_reconciled") else pure tt)
    rest ← more
    pure (d ∷ rest.0, rest.1)

  after_failure : Client r (List Delta × Option Error) → Client r (List Delta × Option Error)
  after_failure more = do
    done ← cancelled e
    if done
        then pure ([], some interrupted)
        else (do report e error (codes "reconcile_failed"); more)

  abbrev sweep_next :
      Delta × Option Error
      → Client r (List Delta × Option Error)
      → Client r (List Delta × Option Error)
  sweep_next (d, none) more = after_delta d more
  sweep_next (d, some cause) more = after_failure more

  -- The names that the keys spell; a key without the prefix is passed over.
  abbrev names_of : List Str → List Str
  names_of [] = []
  names_of (key ∷ keys) =
      let name = trim_prefix key (codes "deployment:") in
      if str_eq name [] || str_eq name key then names_of keys else name ∷ names_of keys

  sweep_loop : List Str → Client r (List Delta × Option Error)
  unfolding after_delta after_failure
  sweep_loop [] = pure ([], none)
  sweep_loop (name ∷ names) = do
    outcome ← reconcile_deployment name
    sweep_next outcome (sweep_loop names)

  -- When the context ended in the loop, the orphans are left alone.
  finish_sweep : List Str → List Delta × Option Error → Client r (List Delta × Option Error)
  finish_sweep known (deltas, some cause) = pure (deltas, some cause)
  finish_sweep known (deltas, none) = do
    reaped ← try (reap_orphan_pods known)
    handle reaped (λ _. pure tt)
        (λ _. do
          done ← cancelled e
          if done then pure tt else report e error (codes "orphan_pod_reap_failed"))
    pure (deltas, none)

  unfoldable pub reconcile_all : Client r (List Delta × Option Error)
  unfolding sweep_loop finish_sweep
  reconcile_all = do
    keys ← scan_keys e deployment_key_pattern
    swept ← sweep_loop (names_of keys)
    finish_sweep (names_of keys) swept
