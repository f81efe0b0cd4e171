-- ===== src/Supervisor/Health/Restarts.antt =====
-- internal/supervisor/health.go: when a health check touches a process.
use orchestration.Prelude.{
  ℕ, suc, ◌*◌, ◌^◌, ◌<◌, ◌==◌, ◌≡◌, refl, Bool, true, false, ◌&&◌, ◌||◌, some, if◌then◌else◌, arith,
}
use orchestration.Prelude.Int.{ℤ, pos, ◌+ℤ◌, ◌-ℤ◌, ◌*ℤ◌, ltb_ℤ, wrap_lem}
use orchestration.Prelude.Text.{Str, codes, str_eq}
use orchestration.Prelude.Decimal.{parse_int64}
use orchestration.Redis.{Redis}
use orchestration.Client.{ok, Env, World, observe, ◌>>=◌, pure}
use orchestration.Client.Idle.{Idle, idle_rules}
use orchestration.Schema.Codec.{PodSpec}
use orchestration.Supervisor.Machine.{Machine}
use orchestration.Supervisor.Process.{is_same_process, pid_alive, process_start_time}
use orchestration.Supervisor.Health.{
  HealthConfig, still_waiting, restart_wait, restart, pod_healthy, pod_alive, probe_passed,
  probe_failed, restart_if_backoff_elapsed, check_pod,
}

-- How long a failed pod waits, in nanoseconds: the seconds that it records, or the base where it
-- records none.
abbrev pub wait_of : HealthConfig → ℕ → ℤ
wait_of cfg n = if n == 0 then cfg.backoff_base else pos (n * 10 ^ 9)

times : (a b : ℕ) → pos a *ℤ pos b ≡ pos (a * b)
unfolding ◌*ℤ◌
times a b = ground arith

restart_wait_lem :
    (cfg : HealthConfig) (pod : PodSpec) (n : ℕ)
    → pod.backoff_next_seconds ≡ pos n
    → n * 10 ^ 9 < 2 ^ 63
    → restart_wait pod cfg ≡ wait_of cfg n
unfolding restart_wait
restart_wait_lem cfg pod n b h =
    rw (b, times n (10 ^ 9), wrap_lem (pos (n * 10 ^ 9)) (omega arith, omega arith)) (ground arith)

before_due : (clock last wait : ℤ) → ltb_ℤ (clock -ℤ last) wait ≡ ltb_ℤ clock (last +ℤ wait)
unfolding ◌+ℤ◌ ◌-ℤ◌
before_due clock last wait = ground arith

still_waiting_lem :
    (cfg : HealthConfig) (pod : PodSpec) (last n : ℕ) (clock : ℤ)
    → parse_int64 pod.last_restart_at ≡ some (pos (suc last))
    → pod.backoff_next_seconds ≡ pos n
    → n * 10 ^ 9 < 2 ^ 63
    → still_waiting pod cfg clock ≡ ltb_ℤ clock (pos (suc last * 10 ^ 9) +ℤ wait_of cfg n)
unfolding still_waiting
still_waiting_lem cfg pod last n clock r b h =
    rw (r, restart_wait_lem cfg pod n b h, times (suc last) (10 ^ 9))
      (both _ _ _ (ground arith) (before_due clock (pos (suc last * 10 ^ 9)) (wait_of cfg n)))
  where
    both : (a b c : Bool) → a ≡ true → b ≡ c → (a && b) ≡ c
    both a b c h k = rw h k

module _ {r : Redis} (e : Env r) (os : Machine) (node_id : Str) (cfg : HealthConfig)
    (pod : PodSpec) where
  is_same_process-Idle : Idle (is_same_process {r = r} os pod.pid pod.pid_start_time)
  unfolding is_same_process pid_alive process_start_time
  is_same_process-Idle = search idle_rules depth 8

  pod_alive-Idle : (same : Bool) → Idle (pod_alive e os node_id cfg pod same)
  unfolding pod_alive
  pod_alive-Idle true = search idle_rules
  pod_alive-Idle false = search idle_rules

  pod_healthy-Idle : Idle (pod_healthy e os node_id cfg pod)
  unfolding pod_healthy
  pod_healthy-Idle = search (idle_rules, is_same_process-Idle, pod_alive-Idle)

  probe_passed-Idle : Idle (probe_passed e os node_id cfg pod)
  unfolding probe_passed
  probe_passed-Idle = search idle_rules

  probe_failed-Idle : Idle (probe_failed e os node_id cfg pod)
  unfolding probe_failed
  probe_failed-Idle = search idle_rules depth 8

  probe-Idle : Idle (do
    healthy ← pod_healthy e os node_id cfg pod
    (if healthy then probe_passed e os node_id cfg pod else probe_failed e os node_id cfg pod))
  probe-Idle = search (idle_rules, pod_healthy-Idle, probe_passed-Idle, probe_failed-Idle)

  -- For a pod that records a positive time of its last restart and a delay that is not negative and
  -- fits 64 bits in nanoseconds: when it is marked neither as failed nor as crash-looping, a health
  -- check of it touches no process, whatever fails and whatever the probes say. When it is marked
  -- so, the check reads the clock once: until the recorded delay after that time, or the base delay
  -- where the recorded one is zero, it does nothing else, and from then on it restarts the pod.
  pub check_pod_lem :
      (last n : ℕ) (w : World r)
      → parse_int64 pod.last_restart_at ≡ some (pos (suc last))
      → pod.backoff_next_seconds ≡ pos n
      → n * 10 ^ 9 < 2 ^ 63
      → let down =
          str_eq pod.status (codes "CrashLoopBackOff") || str_eq pod.status (codes "Failed") in
        let due = pos (suc last * 10 ^ 9) +ℤ wait_of cfg n in
        let read : World r = record w { tick = suc w.tick } in
        (down ≡ false → (check_pod e os node_id cfg pod w).1.acts ≡ w.acts)
        × (down ≡ true
            → check_pod e os node_id cfg pod w ≡ (
                if ltb_ℤ (os.clock w.tick) due
                then (ok tt, read)
                else restart e os node_id cfg pod read))
  unfolding check_pod restart_if_backoff_elapsed observe pure ◌>>=◌
  check_pod_lem last n w r b h = (
    λ up. rw up (probe-Idle.at w),
    λ down.
        rw (down, still_waiting_lem cfg pod last n (os.clock w.tick) r b h)
          (chosen (ltb_ℤ (os.clock w.tick) (pos (suc last * 10 ^ 9) +ℤ wait_of cfg n))),
  )
    where
      chosen :
          (waiting : Bool)
          → (if waiting then pure tt else restart e os node_id cfg pod)
              (record w { tick = suc w.tick })
            ≡ (if waiting
                then (ok tt, record w { tick = suc w.tick })
                else restart e os node_id cfg pod (record w { tick = suc w.tick }))
      chosen true = refl
      chosen false = refl
