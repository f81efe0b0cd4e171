-- ===== src/Scheduler/Reading.antt =====
-- internal/scheduler/scheduler.go: what the candidates are in surroundings that serve every call.
use orchestration.Prelude.{refl, List, [], ◌∷◌, if◌then◌else◌}
use orchestration.Prelude.Int.{ℤ}
use orchestration.Prelude.Text.{Str, codes, str_lt}
use orchestration.Prelude.Sort.{sort_by}
use orchestration.Prelude.Float.{Float}
use orchestration.Redis.{Redis, Hash}
use orchestration.Client.{
  Result, ok, err, Env, pure, ◌>>=◌, ◌>>◌, handle, report, warn, hash_get, set_members, key_exists,
}
use orchestration.Client.Calm.{
  Calm, Reads, concat_map, Reads-pure, Reads-call, Reads-bind, Reads-collect,
}
use orchestration.Schema.Keys.{node_registry_key, node_status_key, node_capacity_key}
use orchestration.Schema.Codec.{NodeCapacity, map_to_node_capacity}
use orchestration.Scheduler.{
  Candidate, has_room, tighter, when_live, live_nodes, consider, when_fitting, best_fit_order,
}

abbrev pub kept_if : ℤ → ℤ → Str → NodeCapacity → List Candidate
kept_if cpu mem n c = if has_room cpu mem c then record { node_id = n; capacity = c } ∷ [] else []

abbrev pub fitting_if : ℤ → ℤ → Str → Hash → List Candidate
fitting_if cpu mem node_id [] = []
fitting_if cpu mem node_id (f ∷ fields) =
    handle (map_to_node_capacity (f ∷ fields)) (λ c. kept_if cpu mem node_id c) (λ _. [])

module _ (r : Redis) where
  abbrev pub live_if : Str → r.Db → List Str
  live_if n db = if r.exists db (node_status_key n) then n ∷ [] else []

  -- The registered nodes with a lease.
  abbrev pub live_at : r.Db → List Str
  live_at db = sort_by str_lt (concat_map (λ n. live_if n db) (r.smembers db node_registry_key))

  -- The candidate that a node is, if it is one.
  abbrev pub fitting : ℤ → ℤ → Str → r.Db → List Candidate
  fitting cpu mem n db = fitting_if cpu mem n (r.hgetall db (node_capacity_key n))

  abbrev pub candidates_at : Float → ℤ → ℤ → r.Db → List Candidate
  candidates_at fl cpu mem db =
      sort_by (tighter fl cpu mem) (concat_map (λ n. fitting cpu mem n db) (live_at db))

module _ {r : Redis} (fl : Float) (e : Env r) (calm : Calm e) (cpu mem : ℤ) where
  Reads-when_live : (n : Str) → Reads (live_if r n) (when_live fl e n)
  unfolding when_live key_exists
  Reads-when_live n =
      Reads-bind (λ db. r.exists db (node_status_key n)) (λ there db. if there then n ∷ [] else [])
        _ _ (Reads-call e calm _) (λ there. Reads-pure _)

  Reads-live_nodes : Reads (live_at r) (live_nodes fl e)
  unfolding live_nodes set_members
  Reads-live_nodes =
      Reads-bind (λ db. r.smembers db node_registry_key)
        (λ ids db. sort_by str_lt (concat_map (λ n. live_if r n db) ids)) _ _ (Reads-call e calm _)
        λ ids.
          Reads-bind (λ db. concat_map (λ n. live_if r n db) ids) (λ live db. sort_by str_lt live) _
            _ (Reads-collect _ _ ids Reads-when_live) λ live. Reads-pure _

  Reads-consider :
      (n : Str) (h : Hash) → Reads (λ db. fitting_if cpu mem n h) (consider fl e cpu mem n h)
  unfolding consider report pure ◌>>=◌
  Reads-consider n [] = Reads-pure []
  Reads-consider n (f ∷ fields) = considered (map_to_node_capacity (f ∷ fields))
    where
      considered :
          (x : Result NodeCapacity)
          → Reads
              (λ db. handle x (λ c. kept_if cpu mem n c) (λ _. []))
              (handle x
                (λ c. pure (kept_if cpu mem n c))
                (λ _. do report e warn (codes "capacity_hash_malformed"); pure []))
      considered (ok c) = Reads-pure _
      considered (err cause) = record { at = λ w. (_, refl, refl) }

  Reads-when_fitting : (n : Str) → Reads (fitting r cpu mem n) (when_fitting fl e cpu mem n)
  unfolding when_fitting hash_get
  Reads-when_fitting n =
      Reads-bind (λ db. r.hgetall db (node_capacity_key n)) (λ h db. fitting_if cpu mem n h) _ _
        (Reads-call e calm _) (λ h. Reads-consider n h)

  pub Reads-best_fit_order : Reads (candidates_at r fl cpu mem) (best_fit_order fl e cpu mem)
  unfolding best_fit_order
  Reads-best_fit_order =
      Reads-bind (live_at r)
        (λ live db. sort_by (tighter fl cpu mem) (concat_map (λ n. fitting r cpu mem n db) live)) _
        _ Reads-live_nodes
        λ live.
          Reads-bind (λ db. concat_map (λ n. fitting r cpu mem n db) live)
            (λ fits db. sort_by (tighter fl cpu mem) fits) _ _
            (Reads-collect _ _ live Reads-when_fitting) λ fits. Reads-pure _
