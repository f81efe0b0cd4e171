-- ===== src/Controller/Replica/Safe.antt =====
-- internal/controller/replica.go: the delta engine and the sweep under the invariant of
-- `Capacity.Sane`.
use orchestration.Prelude.{
  ℕ, ◌≡◌, refl, ◌||◌, Option, none, some, List, [], ◌∷◌, All, All-append, Bool-cases, inl, inr, any,
  ltb, if◌then◌else◌,
}
use orchestration.Prelude.Int.{ℤ}
use orchestration.Prelude.Text.{Str, codes, str_eq}
use orchestration.Prelude.Float.{Float}
use orchestration.Redis.{Redis, RedisLaws, Hash}
use orchestration.Client.{
  Error, Result, ok, err, info, Env, Client, report, pure, fail, handle, ◌>>◌,
}
use orchestration.Client.Keeps.{
  Keeps, Keeps-pure, Keeps-fail, Keeps-handle, Keeps-bind, Stable, flow_rules, env_rules,
  Keeps-scan_keys,
}
use orchestration.Client.Gives.{
  Gives, Holds, Gives-pure, Gives-bind, Gives-collect, Gives-try, Keeps-bind_with,
}
use orchestration.Capacity.Readings.{PodFine, HashFine, Gives-hash_get}
use orchestration.Capacity.Guard.{Guard}
use orchestration.Capacity.Sane.{IsRequest, IsSane, IsSane-Guard}
use orchestration.Schema.Codec.{DeploymentSpec, PodSpec, map_to_pod, map_to_deployment}
use orchestration.Scheduler.Safe.{schedule_replicas-Guard}
use orchestration.Controller.Replica.{
  Delta, remove_pods, select_victims, delete_pod_records, drop_evicted, converge, settle_pods,
  reconcile_fields, reconcile_deployment, orphan_of, read_orphan, add_orphan, by_deployment,
  reap_groups, reap_orphan_pods, after_delta, after_failure, sweep_next, sweep_loop, finish_sweep,
  reconcile_all, live_pods, no_delta,
}
use orchestration.Controller.Replica.Removes.{
  keep-All, select_victims-All, Gives-pods_for_deployment, remove_pods-Keeps, remove_all-Keeps,
}

module _ (r : Redis) (laws : RedisLaws r) (fl : Float) (e : Env r) (st : Stable e (IsSane r)) where
  abbrev guard : Guard e (IsSane r) IsRequest
  guard = IsSane-Guard r laws e st

  drop_evicted-Keeps : (name : Str) (ids : List Str) → Keeps (IsSane r) (drop_evicted fl e name ids)
  unfolding drop_evicted delete_pod_records
  drop_evicted-Keeps name [] = Keeps-pure tt
  drop_evicted-Keeps name (id ∷ ids) = guard.deletes _

  -- One pass of the delta engine over pods and a deployment with requests.
  converge-Keeps :
      (dep : DeploymentSpec) (name : Str) (live : List PodSpec) (delta : Delta)
      → IsRequest dep.cpu_request
      → IsRequest dep.mem_request
      → All PodFine live
      → Keeps (IsSane r) (converge fl e dep name live delta)
  unfolding converge
  converge-Keeps dep name live delta c m k =
      let victims : (n : ℤ)
          → Keeps (IsSane r) (remove_pods fl e name (some (select_victims live n))) =
        λ n.
          remove_pods-Keeps r laws fl e st name (select_victims live n)
            (select_victims-All PodFine live n k) in
      search (flow_rules, schedule_replicas-Guard fl e guard dep c m, victims)

  settle_pods-Keeps :
      (dep : DeploymentSpec) (name : Str) (pods : List PodSpec)
      → IsRequest dep.cpu_request
      → IsRequest dep.mem_request
      → All PodFine pods
      → Keeps (IsSane r) (settle_pods fl e dep name pods)
  unfolding settle_pods
  settle_pods-Keeps dep name pods c m k =
      let counted : (delta : Delta)
          → Keeps (IsSane r) (converge fl e dep name (live_pods pods) delta) =
        λ delta. converge-Keeps dep name (live_pods pods) delta c m (keep-All PodFine _ pods k) in
      search (flow_rules, drop_evicted-Keeps, counted)

  settle_found-Keeps :
      (dep : DeploymentSpec) (name : Str) (x : Result (List PodSpec))
      → IsRequest dep.cpu_request
      → IsRequest dep.mem_request
      → Holds (All PodFine) x
      → Keeps
          (IsSane r)
          (handle x (settle_pods fl e dep name) (λ cause. pure (no_delta, some cause)))
  settle_found-Keeps dep name (ok pods) c m k = settle_pods-Keeps dep name pods c m k
  settle_found-Keeps dep name (err cause) c m k = Keeps-pure _

  reconcile_fields-Keeps :
      (name : Str) (h : Hash) → HashFine h → Keeps (IsSane r) (reconcile_fields fl e name h)
  unfolding reconcile_fields
  reconcile_fields-Keeps name [] k = search (flow_rules, remove_all-Keeps r laws fl e st)
  reconcile_fields-Keeps name (f ∷ fields) k =
      Keeps-handle (map_to_deployment (f ∷ fields)) _ _
        (λ dep eq.
          let (c, m) = k.deployment dep eq in
          Keeps-bind_with (Holds (All PodFine)) _ _
            (Gives-try _ (Gives-pods_for_deployment r laws fl e st name))
            (λ x held. settle_found-Keeps dep name x c m held))
        (λ cause. Keeps-pure _)

  fields_found-Keeps :
      (name : Str) (x : Result Hash)
      → Holds HashFine x
      → Keeps
          (IsSane r)
          (handle x (reconcile_fields fl e name) (λ cause. pure (no_delta, some cause)))
  fields_found-Keeps name (ok h) k = reconcile_fields-Keeps name h k
  fields_found-Keeps name (err cause) k = Keeps-pure _

  pub reconcile_deployment-Keeps : (name : Str) → Keeps (IsSane r) (reconcile_deployment fl e name)
  unfolding reconcile_deployment
  reconcile_deployment-Keeps [] = Keeps-pure _
  reconcile_deployment-Keeps (c ∷ name) =
      Keeps-bind_with (Holds HashFine) _ _ (Gives-try _ (Gives-hash_get e st _))
        (fields_found-Keeps (c ∷ name))

  orphan_of-All : (known : List Str) (h : Hash) → HashFine h → All PodFine (orphan_of fl e known h)
  unfolding orphan_of
  orphan_of-All known [] k = tt
  orphan_of-All known (f ∷ fields) k = claimed (map_to_pod (f ∷ fields)) refl
    where
      claimed :
          (x : Result PodSpec)
          → map_to_pod (f ∷ fields) ≡ x
          → All PodFine (orphan_of fl e known (f ∷ fields))
      claimed (err c) eq = rw (eq, orphan_of) tt
      claimed (ok pod) eq =
          rw (eq, orphan_of)
            (elim (Bool-cases (str_eq pod.deployment [] || any (str_eq pod.deployment) known)) [
              | inl b ↦ rw b tt
              | inr b ↦ rw b (k.pod pod eq, tt)
            ])

  Gives-orphan_found :
      (known : List Str) (x : Result Hash)
      → Holds HashFine x
      → Gives {r = r}
          (IsSane r)
          (All PodFine)
          (handle x (λ h. pure (orphan_of fl e known h)) (λ _. pure []))
  Gives-orphan_found known (ok h) k = Gives-pure _ (orphan_of-All known h k)
  Gives-orphan_found known (err c) k = Gives-pure [] tt

  Gives-read_orphan :
      (known : List Str) (key : Str) → Gives (IsSane r) (All PodFine) (read_orphan fl e known key)
  unfolding read_orphan
  Gives-read_orphan known key =
      Gives-bind (Holds HashFine) _ _ (Gives-try _ (Gives-hash_get e st key))
        (Gives-orphan_found known)

  abbrev Groups : List (Str × List PodSpec) → Type 0
  Groups gs = All (λ g. All PodFine g.1) gs

  add_orphan-Groups :
      (pod : PodSpec) (gs : List (Str × List PodSpec))
      → PodFine pod
      → Groups gs
      → Groups (add_orphan fl e pod gs)
  unfolding add_orphan
  add_orphan-Groups pod [] p k = ((p, tt), tt)
  add_orphan-Groups pod ((name, pods) ∷ gs) p k = elim (Bool-cases (str_eq name pod.deployment)) [
    | inl b ↦ rw b (All-append PodFine pods (pod ∷ []) k.0 (p, tt), k.1)
    | inr b ↦ rw b (k.0, add_orphan-Groups pod gs p k.1)
  ]

  by_deployment-Groups :
      (pods : List PodSpec) (gs : List (Str × List PodSpec))
      → All PodFine pods
      → Groups gs
      → Groups (by_deployment fl e pods gs)
  unfolding by_deployment
  by_deployment-Groups [] gs p k = k
  by_deployment-Groups (pod ∷ pods) gs p k =
      by_deployment-Groups pods _ p.1 (add_orphan-Groups pod gs p.0 k)

  reap_next-Keeps :
      (n : ℕ) (stop : Option Error) (more : Client r Unit)
      → Keeps (IsSane r) more
      → Keeps (IsSane r) (elim stop as (λ _. Client r Unit) [
        | some cause ↦ fail cause
        | none ↦ do (if ltb 0 n then report e info (codes "orphan_pods_reaped") else pure tt); more
      ])
  reap_next-Keeps n (some cause) more k = Keeps-fail cause
  reap_next-Keeps n none more k = search (flow_rules, env_rules)

  reap_groups_step :
      (name : Str) (pods : List PodSpec) (gs : List (Str × List PodSpec))
      → All PodFine pods
      → Keeps (IsSane r) (reap_groups fl e gs)
      → Keeps (IsSane r) (reap_groups fl e ((name, pods) ∷ gs))
  unfolding reap_groups
  reap_groups_step name pods gs k rest =
      Keeps-bind _ _ (remove_pods-Keeps r laws fl e st name pods k)
        λ outcome. reap_next-Keeps outcome.0 outcome.1 _ rest

  reap_groups-Keeps :
      (gs : List (Str × List PodSpec)) → Groups gs → Keeps (IsSane r) (reap_groups fl e gs)
  unfolding reap_groups
  reap_groups-Keeps [] k = Keeps-pure tt
  reap_groups-Keeps ((name, pods) ∷ gs) k =
      reap_groups_step name pods gs k.0 (reap_groups-Keeps gs k.1)

  reap_orphan_pods-Keeps : (known : List Str) → Keeps (IsSane r) (reap_orphan_pods fl e known)
  unfolding reap_orphan_pods
  reap_orphan_pods-Keeps known = Keeps-bind _ _ (Keeps-scan_keys e st _) λ keys.
      Keeps-bind_with (All PodFine) _ _ (Gives-collect PodFine _ keys (Gives-read_orphan known))
        λ orphans k. reap_groups-Keeps _ (by_deployment-Groups orphans [] k tt)

  after_delta-Keeps :
      (d : Delta) (more : Client r (List Delta × Option Error))
      → Keeps (IsSane r) more
      → Keeps (IsSane r) (after_delta fl e d more)
  unfolding after_delta
  after_delta-Keeps d more k = search (flow_rules, env_rules)

  after_failure-Keeps :
      (more : Client r (List Delta × Option Error))
      → Keeps (IsSane r) more
      → Keeps (IsSane r) (after_failure fl e more)
  unfolding after_failure
  after_failure-Keeps more k = search (flow_rules, env_rules)

  sweep_next-Keeps :
      (outcome : Delta × Option Error) (more : Client r (List Delta × Option Error))
      → Keeps (IsSane r) more
      → Keeps (IsSane r) (sweep_next fl e outcome more)
  sweep_next-Keeps (d, none) more k = after_delta-Keeps d more k
  sweep_next-Keeps (d, some cause) more k = after_failure-Keeps more k

  sweep_loop-Keeps : (names : List Str) → Keeps (IsSane r) (sweep_loop fl e names)
  unfolding sweep_loop
  sweep_loop-Keeps [] = Keeps-pure _
  sweep_loop-Keeps (name ∷ names) =
      Keeps-bind _ _ (reconcile_deployment-Keeps name)
        λ outcome. sweep_next-Keeps outcome _ (sweep_loop-Keeps names)

  finish_sweep-Keeps :
      (known : List Str) (swept : List Delta × Option Error)
      → Keeps (IsSane r) (finish_sweep fl e known swept)
  unfolding finish_sweep
  finish_sweep-Keeps known (deltas, some cause) = Keeps-pure _
  finish_sweep-Keeps known (deltas, none) =
      search (flow_rules, env_rules, reap_orphan_pods-Keeps) depth 8

  -- A sweep of the replica controller over all deployments, with every placement, removal and orphan
  -- reaped, keeps each node's allocation between zero and its total, and the requests of all stored
  -- pods and deployments non-negative: whichever calls fail or lose their reply, and whatever other
  -- processes that keep both do between any two calls.
  pub reconcile_all-Keeps : Keeps (IsSane r) (reconcile_all fl e)
  unfolding reconcile_all
  reconcile_all-Keeps =
      search (flow_rules, Keeps-scan_keys e st, sweep_loop-Keeps, finish_sweep-Keeps)
