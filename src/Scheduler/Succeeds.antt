-- ===== src/Scheduler/Succeeds.antt =====
-- internal/scheduler/scheduler.go: when a placement must succeed.
use orchestration.Prelude.{ℕ, suc, ◌≡◌, refl, sym, true, some, List, [], ◌∷◌, arith, All, any}
use orchestration.Prelude.Int.{ℤ}
use orchestration.Prelude.Text.{Str}
use orchestration.Prelude.Float.{Float}
use orchestration.Redis.{Redis, RedisLaws, IsExact, hset_all}
use orchestration.Client.{
  Result, ok, Env, World, pure, ◌>>=◌, try, now, random_hex, report, hash_set, list_push,
  eval_script,
}
use orchestration.Client.Calm.{Calm, call-Calm}
use orchestration.Capacity.{reserve_script, reserve_ok, reserve, reserve_outcome}
use orchestration.Schema.Keys.{
  node_registry_key, node_status_key, node_capacity_key, node_commands_key, pod_key,
}
use orchestration.Schema.Codec.{DeploymentSpec, pod_to_map}
use orchestration.Supervisor.Commands.{command_start_pod, encode_command, send_command}
use orchestration.Scheduler.{Candidate, pending_pod, dispatch, commit, place, schedule_one}
use orchestration.Scheduler.Reading.{Reads-best_fit_order}
use orchestration.Scheduler.Fits.{IsWhole, Grants, candidates-Grants, HasRoom, candidates-exist}

-- The random source never fails.
abbrev pub Draws : {r : Redis} → Env r → Type 0
Draws e = (n : ℕ) → (c : ℕ) × (s : Str) × (e.random n ≡ some (c ∷ s))

module _ {r : Redis} (fl : Float) (e : Env r) (dep : DeploymentSpec) where
  -- The database once a pod is placed on a node: reserved, stored, and its start command queued.
  abbrev pub placed_at : Str → Str → ℤ → r.Db → r.Db
  placed_at node_id id t db =
      r.rpush
        (hset_all r
          (reserve_script r (node_capacity_key node_id) dep.cpu_request dep.mem_request db).1
          (pod_key dep.name id) (pod_to_map (pending_pod fl e dep id node_id t)))
        (node_commands_key node_id)
        (encode_command (record { type = command_start_pod; deployment = dep.name; pod_id = id }))

  -- A placement on `node_id` that runs to its end.
  abbrev pub PlacedOn : Str → r.Db → Result Str × World r → Type 0
  PlacedOn node_id db (x, v) =
      (t : ℤ) × (id : Str) × (x ≡ ok id)
      × (any (λ c. true) id ≡ true)
      × (v.db ≡ placed_at node_id id t db)

  place_lem :
      Calm e
      → Draws e
      → (c : Candidate) (rest : List Candidate) (w : World r)
      → (reserve_script r (node_capacity_key c.node_id) dep.cpu_request dep.mem_request w.db).0
        ≡ ok reserve_ok
      → PlacedOn c.node_id w.db (place fl e dep (c ∷ rest) w)
  unfolding place commit dispatch reserve reserve_outcome eval_script ◌>>=◌ pure now try report
      hash_set send_command list_push random_hex
  place_lem calm random c rest w granted =
      let (h, s, drawn) = random (suc w.tick) in
      rw (call-Calm e calm, granted, drawn, call-Calm e calm, call-Calm e calm)
        (_, _, refl, refl, refl)

  place_nonempty :
      Calm e
      → Draws e
      → (cs : List Candidate) (w : World r) (db : r.Db) → w.db ≡ db
      → any (λ c. true) cs ≡ true
      → All (Grants r dep.cpu_request dep.mem_request db) cs
      → (node_id : Str) × (r.exists db (node_status_key node_id) ≡ true)
        × PlacedOn node_id db (place fl e dep cs w)
  place_nonempty calm random [] w db same h k = ground (arith, h)
  place_nonempty calm random (c ∷ rest) w db same h k =
      (c.node_id, k.0.0, rw (sym same) (place_lem calm random c rest w (rw same k.0.1)))

  -- In surroundings that serve every call, with no other process writing and a random source that
  -- works, a placement succeeds if one registered node has a lease and room for the request, and
  -- every registered node has a well-formed capacity hash, all numbers being exact in a double: it
  -- returns a new id that is not empty, on a node with a lease, and the database is then what the
  -- reservation script on that node, the writing of the pod's hash and the queueing of its start
  -- command make of it.
  pub schedule_one-places :
      (laws : RedisLaws r) (n : Str) (w : World r)
      → Calm e
      → Draws e
      → IsExact dep.cpu_request
      → IsExact dep.mem_request
      → All (IsWhole laws w.db) (r.smembers w.db node_registry_key)
      → HasRoom laws dep.cpu_request dep.mem_request w.db n
      → (node_id : Str) × (r.exists w.db (node_status_key node_id) ≡ true)
        × PlacedOn node_id w.db (schedule_one fl e dep w)
  unfolding schedule_one ◌>>=◌
  schedule_one-places laws n w calm random cpu_exact mem_exact whole room =
      let (v, ran, same) = (Reads-best_fit_order fl e calm dep.cpu_request dep.mem_request).at w in
      rw ran (
        place_nonempty calm random _ v w.db same
          (candidates-exist laws _ _ cpu_exact mem_exact fl w.db n room)
          (candidates-Grants laws _ _ cpu_exact mem_exact fl w.db whole))
