-- ===== src/Supervisor/Consumer/Safe.antt =====
-- internal/supervisor/consumer.go: the commands of a node under the invariant of `Capacity.Sane`.
use orchestration.Prelude.{[], ◌∷◌}
use orchestration.Prelude.Text.{Str}
use orchestration.Redis.{Redis, RedisLaws, Hash}
use orchestration.Client.{Env}
use orchestration.Client.Keeps.{Keeps, Keeps-pure, Keeps-handle, Stable, flow_rules, env_rules}
use orchestration.Client.Gives.{Keeps-bind_with}
use orchestration.Capacity.Guard.{Guard}
use orchestration.Capacity.Sane.{IsRequest, IsSane, IsSane-Guard}
use orchestration.Capacity.Readings.{PodFine, HashFine, Gives-hash_get}
use orchestration.Schema.Codec.{PodSpec, map_to_pod}
use orchestration.Supervisor.Machine.{Machine}
use orchestration.Supervisor.Commands.{Command}
use orchestration.Supervisor.Spawn.Safe.{spawn-Keeps, stop-Keeps}
use orchestration.Supervisor.Consumer.{
  release_capacity, remove_pod, remove_read, stop_and_remove, handle_command,
}

module _ {r : Redis} (laws : RedisLaws r) (e : Env r) (st : Stable e (IsSane r)) (os : Machine)
    (node_id : Str) where
  abbrev guard : Guard e (IsSane r) IsRequest
  guard = IsSane-Guard r laws e st

  release_capacity-Keeps :
      (pod : PodSpec) → PodFine pod → Keeps (IsSane r) (release_capacity e os node_id pod)
  unfolding release_capacity
  release_capacity-Keeps pod k = guard.releases _ _ _ k.0 k.1

  remove_pod-Keeps :
      (deployment pod_id : Str) (pod : PodSpec)
      → PodFine pod
      → Keeps (IsSane r) (remove_pod e os node_id deployment pod_id pod)
  unfolding remove_pod
  remove_pod-Keeps deployment pod_id pod k =
      search
        (
          flow_rules,
          env_rules,
          stop-Keeps laws e st os node_id,
          release_capacity-Keeps,
          guard.deletes,
        )
        depth 10

  remove_read-Keeps :
      (deployment pod_id : Str) (h : Hash)
      → HashFine h
      → Keeps (IsSane r) (remove_read e os node_id deployment pod_id h)
  unfolding remove_read
  remove_read-Keeps deployment pod_id [] k = Keeps-pure tt
  remove_read-Keeps deployment pod_id (f ∷ fields) k =
      Keeps-handle (map_to_pod (f ∷ fields)) _ _
        (λ pod eq. remove_pod-Keeps deployment pod_id pod (k.pod pod eq)) (λ c. guard.deletes _)

  stop_and_remove-Keeps :
      (deployment pod_id : Str) → Keeps (IsSane r) (stop_and_remove e os node_id deployment pod_id)
  unfolding stop_and_remove
  stop_and_remove-Keeps deployment pod_id =
      Keeps-bind_with HashFine _ _ (Gives-hash_get e st _) (remove_read-Keeps deployment pod_id)

  -- Handling any command, a start with its failures, a stop with the removal of the pod, or an
  -- unknown one, keeps each node's allocation between zero and its total, and the requests of all
  -- stored pods and deployments non-negative: whichever calls fail or lose their reply, whatever the
  -- machine answers, and whatever other processes that keep both do in between.
  pub handle_command-Keeps : (cmd : Command) → Keeps (IsSane r) (handle_command e os node_id cmd)
  unfolding handle_command
  handle_command-Keeps cmd =
      search (flow_rules, env_rules, spawn-Keeps laws e st os node_id, stop_and_remove-Keeps) depth
        8
