-- ===== src/Api/Server.antt =====
-- internal/api/server.go: the handlers. A response is its status and the value that is written as
-- JSON; HTTP, routing and JSON are the library's, so a request body comes decoded, or as the error
-- of decodeJSON.
pub mod Answers
pub mod ReadOnly
use orchestration.Prelude.{
  ℕ, ◌≡◌, Bool, true, false, Option, none, some, List, [], ◌∷◌, ◌++◌, ◌==◌, if◌then◌else◌, keep,
  length,
}
use orchestration.Prelude.Int.{ℤ, pos, ltb_ℤ, sub64}
use orchestration.Prelude.Text.{Str, codes, str_eq, str_lt}
use orchestration.Prelude.Sort.{sort_by}
use orchestration.Prelude.Float.{Float}
use orchestration.Redis.{Redis, Hash}
use orchestration.Client.{
  Error, Result, ok, err, info, warn, error, Env, Client, pure, try, handle, collect, ◌>>=◌, ◌>>◌,
  ping, report, hash_get, set_members, key_exists, scan_keys,
}
use orchestration.Schema.Keys.{
  node_registry_key, node_status_key, node_capacity_key, deployment_pods_pattern,
}
use orchestration.Schema.Fields.{consumes_capacity}
use orchestration.Schema.Codec.{
  DeploymentSpec, PodSpec, NodeCapacity, map_to_pod, map_to_node_capacity,
}
use orchestration.Events.{event_update, publish_event}
use orchestration.Scheduler.{schedule_replicas}
use orchestration.Api.Validate.{DeploymentRequest, validate}
use orchestration.Api.Store.{get, list, apply, set_desired_replicas}
use orchestration.Api.Views.{StateSnapshot, snapshot}

-- One entry of the node listing; the capacity is zero where it could not be read.
pub record NodeReading : Type 0 where
  pub node_id : Str
  pub ready : Bool
  pub capacity : NodeCapacity

pub data Body : Type 0 where
  -- {"error": …}: a fixed text, an error's text, or "deployment %q not found"
  said : Str → Body
  cause : Error → Body
  absent : Str → Body
  -- {"error": "validation failed", "problems": …}
  problems_body : List Str → Body
  health : Bool → Body
  one_deployment : DeploymentSpec → Body
  all_deployments : List DeploymentSpec → Body
  nodes : List NodeReading → Body
  -- name, desired replicas, existing pods, created pods
  placed : Str → ℤ → ℕ → List Str → Body
  state : StateSnapshot → Body
  page : Str → Body

pub record Response : Type 0 where
  pub status : ℕ
  pub body : Body

abbrev pub respond : ℕ → Body → Response
respond status body = record { status = status; body = body }

module _ {r : Redis} (e : Env r) where
  -- The spec is stored already, so a publish that fails is only logged.
  unfoldable pub announce_spec : DeploymentSpec → Client r Unit
  announce_spec dep = do
    sent ← try (
        publish_event e
          (record { event = event_update; deployment = dep.name; desired = dep.desired_replicas }))
    handle sent (λ _. pure tt) (λ _. report e warn (codes "event_publish_failed"))

  unfoldable pub handle_healthz : Client r Response
  handle_healthz = do
    pong ← try (ping e)
    pure (handle pong (λ _. respond 200 (health true)) (λ _. respond 503 (health false)))

  stored_answer : DeploymentSpec × Bool → Client r Response
  unfolding announce_spec
  stored_answer (dep, existed) = do
    report e info (if existed then codes "deployment_updated" else codes "deployment_created")
    announce_spec dep
    pure (respond (if existed then 200 else 201) (one_deployment dep))

  store_request : DeploymentRequest → Client r Response
  unfolding stored_answer
  store_request req = do
    written ← try (apply e req)
    handle written (λ x. stored_answer x)
        (λ _. do
          report e error (codes "deployment_write_failed")
          pure (respond 500 (said (codes "could not store deployment"))))

  check_request : Option (List Str) → DeploymentRequest → Client r Response
  unfolding store_request
  check_request (some problems) req = pure (respond 400 (problems_body problems))
  check_request none req = store_request req

  unfoldable pub handle_create_deployment : Result DeploymentRequest → Client r Response
  unfolding check_request
  handle_create_deployment decoded =
      handle decoded (λ req. check_request (validate req) req) (λ c. pure (respond 400 (cause c)))

  -- What a read of a deployment answers, where it is there.
  with_found :
      Str
      → Option (Result DeploymentSpec)
      → (DeploymentSpec → Client r Response)
      → Client r Response
  with_found name none found = pure (respond 404 (absent name))
  with_found name (some read) found = handle read found (λ c. pure (respond 500 (cause c)))

  unfoldable pub handle_get_deployment : Str → Client r Response
  unfolding with_found
  handle_get_deployment name = do
    read ← try (get e name)
    handle read (λ x. with_found name x (λ dep. pure (respond 200 (one_deployment dep))))
        (λ c. pure (respond 500 (cause c)))

  unfoldable pub handle_list_deployments : Client r Response
  handle_list_deployments = do
    read ← try (list e)
    pure (handle read (λ deps. respond 200 (all_deployments deps)) (λ c. respond 500 (cause c)))

  -- After a failed write: 404 where the deployment is not there, and 500 otherwise.
  scale_failed : Str → Error → Result (Option (Result DeploymentSpec)) → Response
  scale_failed name c (ok none) = respond 404 (absent name)
  scale_failed name c (ok (some _)) = respond 500 (cause c)
  scale_failed name c (err _) = respond 500 (cause c)

  scaled : Str → DeploymentSpec → Client r Response
  unfolding announce_spec
  scaled name dep = do
    report e info (codes "deployment_scaled_manually")
    announce_spec dep
    pure (respond 200 (one_deployment dep))

  scale_to : Str → ℤ → Client r Response
  unfolding scaled scale_failed
  scale_to name desired = do
    written ← try (set_desired_replicas e name desired)
    handle written (λ dep. scaled name dep)
        (λ c. do read ← try (get e name); pure (scale_failed name c read))

  scale_checked : Str → Option ℤ → Client r Response
  unfolding scale_to
  scale_checked name none = pure (respond 400 (said (codes "desired_replicas is required")))
  scale_checked name (some desired) =
      if ltb_ℤ desired (pos 0)
      then pure (respond 400 (said (codes "desired_replicas must not be negative")))
      else scale_to name desired

  -- The body's only field is a pointer to the count.
  unfoldable pub handle_scale_deployment : Str → Result (Option ℤ) → Client r Response
  unfolding scale_checked
  handle_scale_deployment name decoded =
      handle decoded (λ desired. scale_checked name desired) (λ c. pure (respond 400 (cause c)))

  abbrev no_capacity : NodeCapacity
  no_capacity = record {
    total_cpu = pos 0;
    total_mem = pos 0;
    allocated_cpu = pos 0;
    allocated_mem = pos 0;
  }

  abbrev capacity_read : Hash → NodeCapacity
  capacity_read [] = no_capacity
  capacity_read (f ∷ fields) =
      handle (map_to_node_capacity (f ∷ fields)) (λ c. c) (λ _. no_capacity)

  node_reading : Str → Client r (List NodeReading)
  node_reading node_id = do
    ready ← key_exists e (node_status_key node_id)
    fields ← try (hash_get e (node_capacity_key node_id))
    pure (
        record {
          node_id = node_id;
          ready = ready;
          capacity = handle fields (λ h. capacity_read h) (λ _. no_capacity);
        }
        ∷ [])

  node_readings : Client r (List NodeReading)
  unfolding node_reading
  node_readings = do
    ids ← set_members e node_registry_key
    collect node_reading (sort_by str_lt ids)

  unfoldable pub handle_list_nodes : Client r Response
  unfolding node_readings
  handle_list_nodes = do
    read ← try node_readings
    pure (handle read (λ views. respond 200 (nodes views)) (λ c. respond 500 (cause c)))

  -- A deleted or malformed pod is left out; a failed read ends the listing.
  abbrev pod_read : Hash → List PodSpec
  pod_read [] = []
  pod_read (f ∷ fields) = handle (map_to_pod (f ∷ fields)) (λ pod. pod ∷ []) (λ _. [])

  listed_pod : Str → Client r (List PodSpec)
  listed_pod key = do fields ← hash_get e key; pure (pod_read fields)

  unfoldable pub pods_for_deployment : Str → Client r (List PodSpec)
  unfolding listed_pod
  pods_for_deployment deployment = do
    keys ← scan_keys e (deployment_pods_pattern deployment)
    collect listed_pod keys

  unfoldable pub handle_state : Client r Response
  handle_state = do
    read ← try (snapshot e)
    pure (handle read (λ s. respond 200 (state s)) (λ c. respond 500 (cause c)))

  -- "GET /" also gets every path that no other route matches; `asset` is the embedded page.
  unfoldable pub handle_dashboard : Option Str → Str → Client r Response
  handle_dashboard none path = pure (
      if str_eq path (codes "/")
      then respond 500 (said (codes "dashboard asset missing"))
      else respond 404 (said (codes "not found")))
  handle_dashboard (some asset) path = pure (
      if str_eq path (codes "/")
      then respond 200 (page asset)
      else respond 404 (said (codes "not found")))

module _ {r : Redis} (fl : Float) (e : Env r) where
  abbrev placing_answer : Str → DeploymentSpec → ℕ → List Str × Option Error → Response
  placing_answer name dep existing (created, none) =
      respond 200 (placed name dep.desired_replicas existing created)
  placing_answer name dep existing (created, some c) = respond 500 (cause c)

  -- Only the shortfall is scheduled.
  place_shortfall : Str → DeploymentSpec → List PodSpec → Client r Response
  place_shortfall name dep pods = do
    let existing = length (keep (λ pod. consumes_capacity pod.status) pods)
    created ← schedule_replicas fl e dep (sub64 dep.desired_replicas (pos existing))
    pure (placing_answer name dep existing created)

  schedule_found : Str → DeploymentSpec → Client r Response
  unfolding place_shortfall
  schedule_found name dep = do
    pods ← try (pods_for_deployment e name)
    handle pods (λ ps. place_shortfall name dep ps) (λ c. pure (respond 500 (cause c)))

  unfoldable pub handle_trigger_schedule : Str → Client r Response
  unfolding schedule_found with_found
  handle_trigger_schedule name = do
    read ← try (get e name)
    handle read (λ x. with_found e name x (λ dep. schedule_found name dep))
        (λ c. pure (respond 500 (cause c)))
