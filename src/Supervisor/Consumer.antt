-- ===== src/Supervisor/Consumer.antt =====
-- internal/supervisor/consumer.go: what the agent does with a command. Reading the queue and decoding
-- an envelope are left to the caller.
pub mod Safe
use orchestration.Prelude.{not, ◌&&◌, [], ◌∷◌, if◌then◌else◌}
use orchestration.Prelude.Text.{Str, codes, str_eq}
use orchestration.Redis.{Redis, Hash}
use orchestration.Client.{
  info, warn, error, Env, Client, pure, try, handle, ◌>>=◌, ◌>>◌, hash_get, delete_key, report,
}
use orchestration.Schema.Keys.{pod_key, telemetry_cpu_key}
use orchestration.Schema.Fields.{consumes_capacity}
use orchestration.Schema.Codec.{PodSpec, map_to_pod}
use orchestration.Capacity
use orchestration.Supervisor.Commands.{Command, command_start_pod, command_stop_pod}
use orchestration.Supervisor.Machine.{Machine}
use orchestration.Supervisor.Spawn.{spawn, stop}

module _ {r : Redis} (e : Env r) (os : Machine) (node_id : Str) where
  unfoldable pub release_capacity : PodSpec → Client r Unit
  release_capacity pod = Capacity.release r e pod.node_id pod.cpu_request pod.mem_request

  -- Capacity goes back before the record is deleted.
  remove_pod : Str → Str → PodSpec → Client r Unit
  unfolding release_capacity
  remove_pod deployment pod_id pod = do
    stop e os node_id deployment pod_id
    (if consumes_capacity pod.status && not (str_eq pod.node_id [])
        then release_capacity pod
        else pure tt)
    cleared ← try (delete_key e (telemetry_cpu_key deployment pod_id ∷ []))
    handle cleared (λ _. pure tt) (λ _. report e warn (codes "telemetry_cleanup_failed"))
    delete_key e (pod_key deployment pod_id ∷ [])
    report e info (codes "pod_removed")

  -- An unreadable record is deleted too.
  remove_read : Str → Str → Hash → Client r Unit
  unfolding remove_pod
  remove_read deployment pod_id [] = pure tt
  remove_read deployment pod_id (f ∷ fields) =
      handle (map_to_pod (f ∷ fields)) (remove_pod deployment pod_id)
        (λ _. delete_key e (pod_key deployment pod_id ∷ []))

  unfoldable pub stop_and_remove : Str → Str → Client r Unit
  unfolding remove_read
  stop_and_remove deployment pod_id = do
    fields ← hash_get e (pod_key deployment pod_id)
    remove_read deployment pod_id fields

  unfoldable pub handle_command : Command → Client r Unit
  handle_command cmd =
      if str_eq cmd.type command_start_pod
      then (do outcome ← try (spawn e os node_id cmd.deployment cmd.pod_id); pure tt)
      else if str_eq cmd.type command_stop_pod
      then (do
        outcome ← try (stop_and_remove cmd.deployment cmd.pod_id)
        handle outcome (λ _. pure tt) (λ _. report e error (codes "pod_stop_failed")))
      else report e warn (codes "command_unknown")
