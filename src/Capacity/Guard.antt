-- ===== src/Capacity/Guard.antt =====
-- internal/capacity/capacity.go: an invariant of the database that the code around reservations may
-- rely on and must keep.
use orchestration.Prelude.{List}
use orchestration.Prelude.Int.{ℤ, pos, ◌≤ℤ◌}
use orchestration.Prelude.Text.{Str}
use orchestration.Redis.{Redis, RedisLaws}
use orchestration.Client.{Env, hash_set, list_push, delete_key}
use orchestration.Client.Keeps.{Keeps, Stable}
use orchestration.Capacity.{reserve, release}
use orchestration.Capacity.Safe.{IsSafe, Keeps-hash_set, Keeps-list_push, Keeps-delete_key}
use orchestration.Capacity.Reserve.{Keeps-reserve}
use orchestration.Capacity.Release.{Keeps-release}
use orchestration.Schema.Codec.{PodSpec, pod_to_map}
use orchestration.Schema.Avoids.{pod_to_map-Avoids}

-- The other processes keep `P`, and so does each step of the code on numbers that satisfy `Q`.
pub record Guard {r : Redis} (e : Env r) (P : r.Db → Type 0) (Q : ℤ → Type 0) : Type 0 where
  pub stable : Stable e P
  pub reserves :
      (node_id : Str) (cpu mem : ℤ) → Q cpu → Q mem → Keeps P (reserve r e node_id cpu mem)
  pub releases :
      (node_id : Str) (cpu mem : ℤ) → Q cpu → Q mem → Keeps P (release r e node_id cpu mem)
  pub writes :
      (key : Str) (pod : PodSpec)
      → Q pod.cpu_request
      → Q pod.mem_request
      → Keeps P (hash_set e key (pod_to_map pod))
  pub pushes : (key value : Str) → Keeps P (list_push e key value)
  pub deletes : (keys : List Str) → Keeps P (delete_key e keys)

-- The invariant of `Capacity.Safe`, on numbers that are not negative.
pub IsSafe-Guard :
    (r : Redis) (laws : RedisLaws r) (e : Env r)
    → Stable e (IsSafe r)
    → Guard e (IsSafe r) (λ z. pos 0 ≤ℤ z)
IsSafe-Guard r laws e st = record {
  stable = st;
  reserves = λ node_id cpu mem c m. Keeps-reserve r laws e node_id cpu mem c m st;
  releases = λ node_id cpu mem c m. Keeps-release r laws e node_id cpu mem c m st;
  writes = λ key pod c m. Keeps-hash_set r laws e st key _ (pod_to_map-Avoids r pod);
  pushes = Keeps-list_push r laws e st;
  deletes = Keeps-delete_key r laws e st;
}
