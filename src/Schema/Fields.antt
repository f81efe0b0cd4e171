-- ===== src/Schema/Fields.antt =====
-- The field names and the status values of internal/schema/schema.go.
use orchestration.Prelude.{Bool, not}
use orchestration.Prelude.Text.{Str, codes, str_eq}

-- Deployment hash fields.
abbrev pub field_deployment_name : Str
field_deployment_name = codes "name"

abbrev pub field_min_replicas : Str
field_min_replicas = codes "min_replicas"

abbrev pub field_max_replicas : Str
field_max_replicas = codes "max_replicas"

abbrev pub field_cpu_request : Str
field_cpu_request = codes "cpu_request"

abbrev pub field_mem_request : Str
field_mem_request = codes "mem_request"

abbrev pub field_desired_replicas : Str
field_desired_replicas = codes "desired_replicas"

abbrev pub field_created_at : Str
field_created_at = codes "created_at"

abbrev pub field_last_scale_up_at : Str
field_last_scale_up_at = codes "last_scale_up_at"

abbrev pub field_last_scale_down_at : Str
field_last_scale_down_at = codes "last_scale_down_at"

abbrev pub field_target_cpu_percent : Str
field_target_cpu_percent = codes "target_cpu_percentage"

abbrev pub field_exec_path : Str
field_exec_path = codes "exec_path"

abbrev pub field_port : Str
field_port = codes "port"

-- Pod hash fields, where they are not spelled like those above.
abbrev pub field_pod_deployment : Str
field_pod_deployment = codes "deployment"

abbrev pub field_pod_id : Str
field_pod_id = codes "pod_id"

abbrev pub field_pod_status : Str
field_pod_status = codes "status"

abbrev pub field_pod_node_id : Str
field_pod_node_id = codes "node_id"

abbrev pub field_pod_pid : Str
field_pod_pid = codes "pid"

abbrev pub field_pod_started_at : Str
field_pod_started_at = codes "started_at"

abbrev pub field_pod_restart_count : Str
field_pod_restart_count = codes "restart_count"

abbrev pub field_pod_consec_failures : Str
field_pod_consec_failures = codes "consecutive_failures"

abbrev pub field_pod_last_health_ok_at : Str
field_pod_last_health_ok_at = codes "last_health_ok_at"

abbrev pub field_pod_backoff_next_sec : Str
field_pod_backoff_next_sec = codes "backoff_next_seconds"

abbrev pub field_pod_last_restart_at : Str
field_pod_last_restart_at = codes "last_restart_at"

abbrev pub field_pod_pid_start_time : Str
field_pod_pid_start_time = codes "pid_start_time"

abbrev pub field_pod_host_port : Str
field_pod_host_port = codes "host_port"

-- Node capacity hash fields.
abbrev pub field_total_cpu : Str
field_total_cpu = codes "total_cpu"

abbrev pub field_total_mem : Str
field_total_mem = codes "total_mem"

abbrev pub field_allocated_cpu : Str
field_allocated_cpu = codes "allocated_cpu"

abbrev pub field_allocated_mem : Str
field_allocated_mem = codes "allocated_mem"

-- Status values.
abbrev pub status_pending : Str
status_pending = codes "Pending"

abbrev pub status_running : Str
status_running = codes "Running"

abbrev pub status_failed : Str
status_failed = codes "Failed"

abbrev pub status_evicted : Str
status_evicted = codes "Evicted"

abbrev pub status_crash_loop_back_off : Str
status_crash_loop_back_off = codes "CrashLoopBackOff"

abbrev pub status_unschedulable : Str
status_unschedulable = codes "Unschedulable"

abbrev pub node_status_ready : Str
node_status_ready = codes "Ready"

-- Whether a pod of this status still holds a reservation against its node.
unfoldable pub consumes_capacity : Str → Bool
consumes_capacity status = not (str_eq status status_evicted)
