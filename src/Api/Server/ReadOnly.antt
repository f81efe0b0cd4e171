-- ===== src/Api/Server/ReadOnly.antt =====
-- internal/api/server.go and dashboard.go: the handlers of GET requests write nothing.
use orchestration.Prelude.{ℕ, Bool, Option, none, some}
use orchestration.Prelude.Text.{Str}
use orchestration.Redis.{Redis}
use orchestration.Client.{Result, Env, Client, ping}
use orchestration.Client.Keeps.{
  Keeps, Stable, flow_rules, Keeps-hash_get, Keeps-set_members, Keeps-key_exists, Keeps-ping,
  Keeps-handle, Keeps-pure,
}
use orchestration.Schema.Codec.{DeploymentSpec}
use orchestration.Api.Store.{list}
use orchestration.Api.Store.Reads.{Keeps-get, Keeps-list}
use orchestration.Api.Views.{snapshot}
use orchestration.Api.Views.Reads.{Keeps-snapshot}
use orchestration.Api.Logs.{handle_events}
use orchestration.Api.Logs.Reads.{Keeps-handle_events}
use orchestration.Api.Server.{
  Response, handle_healthz, handle_get_deployment, with_found, handle_list_deployments,
  handle_list_nodes, node_readings, node_reading, handle_state,
}

module _ {r : Redis} {P : r.Db → Type 0} (e : Env r) (st : Stable e P) where
  pinging : Keeps P (ping e)
  pinging = Keeps-ping e st

  listing : Keeps P (list e)
  listing = Keeps-list e st

  snapping : Keeps P (snapshot e)
  snapping = Keeps-snapshot e st

  Keeps-healthz : Keeps P (handle_healthz e)
  unfolding handle_healthz
  Keeps-healthz = search (flow_rules, pinging)

  Keeps-with_found :
      (name : Str) (read : Option (Result DeploymentSpec))
      (found : DeploymentSpec → Client r Response)
      → ((dep : DeploymentSpec) → Keeps P (found dep))
      → Keeps P (with_found e name read found)
  unfolding with_found
  Keeps-with_found name none found k = search flow_rules
  Keeps-with_found name (some read) found k =
      Keeps-handle read found _ (λ dep _. k dep) (λ c. Keeps-pure _)

  Keeps-get_deployment : (name : Str) → Keeps P (handle_get_deployment e name)
  unfolding handle_get_deployment
  Keeps-get_deployment name = search (flow_rules, Keeps-get e st, Keeps-with_found)

  Keeps-list_deployments : Keeps P (handle_list_deployments e)
  unfolding handle_list_deployments
  Keeps-list_deployments = search (flow_rules, listing)

  Keeps-node_reading : (id : Str) → Keeps P (node_reading e id)
  unfolding node_reading
  Keeps-node_reading id = search (flow_rules, Keeps-key_exists e st, Keeps-hash_get e st)

  Keeps-node_readings : Keeps P (node_readings e)
  unfolding node_readings
  Keeps-node_readings = search (flow_rules, Keeps-set_members e st, Keeps-node_reading)

  Keeps-list_nodes : Keeps P (handle_list_nodes e)
  unfolding handle_list_nodes
  Keeps-list_nodes = search (flow_rules, Keeps-node_readings)

  Keeps-state : Keeps P (handle_state e)
  unfolding handle_state
  Keeps-state = search (flow_rules, snapping)

  -- Whatever the other processes keep true of the database, the handlers of the GET requests for the
  -- health, one deployment, all deployments, the nodes, the state and the stream of frames keep true
  -- too, whether their calls are served or fail.
  pub reads-Keeps :
      (name : Str) (accepts : ℕ → Bool) (ticks : ℕ)
      → Keeps P (handle_healthz e)
        × Keeps P (handle_get_deployment e name)
        × Keeps P (handle_list_deployments e)
        × Keeps P (handle_list_nodes e)
        × Keeps P (handle_state e)
        × Keeps P (handle_events e accepts ticks)
  reads-Keeps name accepts ticks = (
    Keeps-healthz,
    Keeps-get_deployment name,
    Keeps-list_deployments,
    Keeps-list_nodes,
    Keeps-state,
    Keeps-handle_events e st accepts ticks,
  )
