-- ===== src/Supervisor/Spawn/Once.antt =====
-- internal/supervisor/spawn.go: Spawn of a pod that has a process already.
use orchestration.Prelude.{ℕ, suc, ◌≡◌, refl, true, false, ◌==◌, some, [], ◌∷◌, arith}
use orchestration.Prelude.Int.{pos, leb_ℤ}
use orchestration.Prelude.Text.{Str}
use orchestration.Redis.{Redis, Hash}
use orchestration.Client.{
  Result, ok, err, Fault, healthy, lost, unanswered, Env, World, Client, pure, fail, handle, ◌>>=◌,
  hash_get, call, observe, report,
}
use orchestration.Schema.Keys.{deployment_key, pod_key}
use orchestration.Schema.Codec.{DeploymentSpec, PodSpec, map_to_deployment, map_to_pod}
use orchestration.Supervisor.Machine.{Machine}
use orchestration.Supervisor.Process.{start_time, process_start_time, pid_alive, is_same_process}
use orchestration.Supervisor.Spawn.{spawn, spawn_pod, spawn_fields, spawn_deployment, spawn_read}

-- The pod's process exists all the time, with the start time that the pod records.
pub record IsRunning (os : Machine) (pod : PodSpec) : Type 0 where
  pub pid_positive : leb_ℤ pod.pid (pos 0) ≡ false
  pub time_recorded : (pod.pid_start_time == 0) ≡ false
  pub exists : (t : ℕ) → os.exists t pod.pid ≡ true
  pub line : ℕ → Str
  pub stat : (t : ℕ) → os.stat t pod.pid ≡ some (line t)
  pub same_time : (t : ℕ) → start_time (line t) ≡ some pod.pid_start_time

eq_refl : (n : ℕ) → (n == n) ≡ true
eq_refl n = ground arith

module _ {r : Redis} (e : Env r) (os : Machine) (node_id : Str) where
  is_same_process-IsRunning :
      (pod : PodSpec) (w : World r)
      → IsRunning os pod
      → is_same_process {r = r} os pod.pid pod.pid_start_time w
        ≡ (ok true, record w { tick = suc (suc w.tick) })
  unfolding is_same_process pid_alive process_start_time observe ◌>>=◌ pure
  is_same_process-IsRunning pod w run = rw (
    run.pid_positive,
    run.time_recorded,
    run.exists w.tick,
    run.stat (suc w.tick),
    run.same_time (suc w.tick),
    eq_refl pod.pid_start_time,
  )

  spawn_pod-IsRunning :
      (dep : DeploymentSpec) (key : Str) (pod : PodSpec) (w : World r)
      → IsRunning os pod
      → (spawn_pod e os node_id dep key pod w).1.acts ≡ w.acts
  unfolding spawn_pod ◌>>=◌ report
  spawn_pod-IsRunning dep key pod w run = rw (is_same_process-IsRunning pod w run)

  spawn_fields-IsRunning :
      (dep : DeploymentSpec) (key : Str) (fields : Hash) (pod : PodSpec) (w : World r)
      → map_to_pod fields ≡ ok pod
      → IsRunning os pod
      → (spawn_fields e os node_id dep key fields w).1.acts ≡ w.acts
  unfolding spawn_fields fail
  spawn_fields-IsRunning dep key [] pod w m run = refl
  spawn_fields-IsRunning dep key (f ∷ fields) pod w m run =
      rw m (spawn_pod-IsRunning dep key pod w run)

  -- What a call leaves of the processes: nothing changes, and the rest of a block runs, if the reply
  -- came, in the world that the call left.
  after_hash_get :
      (key : Str) (f : Hash → Client r Unit) (w : World r)
      → ((f
            (r.hgetall (e.others w.tick w.db) key)
            (record w { db = e.others w.tick w.db; tick = suc w.tick })).1.acts
          ≡ w.acts)
      → ((hash_get e key >>= f) w).1.acts ≡ w.acts
  unfolding ◌>>=◌ hash_get call
  after_hash_get key f w h = replied (e.fault w.tick) refl
    where
      replied : (x : Fault) → e.fault w.tick ≡ x → ((hash_get e key >>= f) w).1.acts ≡ w.acts
      replied healthy p = rw p h
      replied lost p = rw p
      replied unanswered p = rw p

  spawn_read-IsRunning :
      (deployment pod_id : Str) (fields : Hash) (pod : PodSpec) (w : World r)
      → map_to_pod (r.hgetall (e.others w.tick w.db) (pod_key deployment pod_id)) ≡ ok pod
      → IsRunning os pod
      → (spawn_read e os node_id deployment pod_id fields w).1.acts ≡ w.acts
  unfolding spawn_read spawn_deployment fail
  spawn_read-IsRunning deployment pod_id [] pod w m run = refl
  spawn_read-IsRunning deployment pod_id (f ∷ fields) pod w m run =
      by_spec (map_to_deployment (f ∷ fields))
    where
      by_spec :
          (x : Result DeploymentSpec)
          → (handle x
              (spawn_deployment e os node_id deployment pod_id)
              (λ cause. fail cause)
              w).1.acts
            ≡ w.acts
      by_spec (err c) = refl
      by_spec (ok dep) =
          after_hash_get (pod_key deployment pod_id) _ w
            (spawn_fields-IsRunning dep (pod_key deployment pod_id) _ pod _ m run)

  -- Spawning a pod whose record, at the time it is read, names a process that lives with the
  -- recorded start time does nothing to any process: whichever calls fail, whatever other processes
  -- write in between, and whatever the deployment's record says.
  pub spawn-IsRunning :
      (deployment pod_id : Str) (pod : PodSpec) (w : World r)
      → let first = e.others w.tick w.db in
        map_to_pod (r.hgetall (e.others (suc w.tick) first) (pod_key deployment pod_id)) ≡ ok pod
        → IsRunning os pod
        → (spawn e os node_id deployment pod_id w).1.acts ≡ w.acts
  unfolding spawn
  spawn-IsRunning deployment pod_id pod w m run =
      after_hash_get (deployment_key deployment) _ w
        (spawn_read-IsRunning deployment pod_id _ pod _ m run)
