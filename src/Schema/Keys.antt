-- ===== src/Schema/Keys.antt =====
-- The key builders of internal/schema/schema.go.
use orchestration.Prelude.{◌++◌}
use orchestration.Prelude.Text.{Str, codes}

unfoldable pub node_registry_key : Str
node_registry_key = codes "nodes:registry"

unfoldable pub node_capacity_key : Str → Str
node_capacity_key node_id = codes "node:" ++ (node_id ++ codes ":capacity")

unfoldable pub node_status_key : Str → Str
node_status_key node_id = codes "node:" ++ (node_id ++ codes ":status")

unfoldable pub node_commands_key : Str → Str
node_commands_key node_id = codes "node:" ++ (node_id ++ codes ":commands")

unfoldable pub deployment_key : Str → Str
deployment_key name = codes "deployment:" ++ name

unfoldable pub pod_key : Str → Str → Str
pod_key deployment pod_id = codes "pod:" ++ (deployment ++ (codes ":" ++ pod_id))

unfoldable pub pod_key_pattern : Str
pod_key_pattern = codes "pod:*:*"

unfoldable pub deployment_pods_pattern : Str → Str
deployment_pods_pattern deployment = codes "pod:" ++ (deployment ++ codes ":*")

unfoldable pub deployment_key_pattern : Str
deployment_key_pattern = codes "deployment:*"

unfoldable pub deployment_events_channel : Str
deployment_events_channel = codes "deployment:events"

unfoldable pub telemetry_cpu_key : Str → Str → Str
telemetry_cpu_key deployment pod_id =
    codes "telemetry:" ++ (deployment ++ (codes ":" ++ (pod_id ++ codes ":cpu")))

unfoldable pub log_stream_key : Str
log_stream_key = codes "cluster:logstream"
