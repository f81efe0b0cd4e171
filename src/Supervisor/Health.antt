-- ===== src/Supervisor/Health.antt =====
-- internal/supervisor/health.go: probing the pods of a node, and restarting them with a growing
-- delay. Durations are in nanoseconds.
pub mod Backoff
pub mod Restarts
use orchestration.Prelude.{
  ℕ, zero, suc, ◌+◌, ◌*◌, ◌/◌, ◌^◌, ◌≡◌, Bool, true, false, not, ◌&&◌, ◌||◌, Option, none, some,
  List, [], ◌∷◌, ◌==◌, if◌then◌else◌,
}
use orchestration.Prelude.Int.{
  ℤ, pos, negsuc, pos_part, ◌-ℤ◌, ◌*ℤ◌, ltb_ℤ, leb_ℤ, eq_ℤ, add64, mul64,
}
use orchestration.Prelude.Text.{Str, codes, str_eq}
use orchestration.Prelude.Decimal.{format_int, parse_int64}
use orchestration.Redis.{Redis, Hash}
use orchestration.Client.{
  Error, Result, ok, err, interrupted, info, warn, Env, Client, pure, fail, try, handle, ◌>>=◌,
  ◌>>◌, hash_get, hash_set, scan_keys, now, cancelled, observe, report,
}
use orchestration.Schema.Keys.{pod_key, pod_key_pattern}
use orchestration.Schema.Fields.{
  field_pod_status, field_pod_consec_failures, field_pod_last_health_ok_at,
  field_pod_backoff_next_sec, field_pod_last_restart_at, field_pod_restart_count, status_failed,
  status_evicted, status_crash_loop_back_off,
}
use orchestration.Schema.Codec.{PodSpec, map_to_pod}
use orchestration.Supervisor.Machine.{Machine}
use orchestration.Supervisor.Process.{is_same_process}
use orchestration.Supervisor.Spawn.{spawn}

abbrev second : ℤ
second = pos (10 ^ 9)

pub record HealthConfig : Type 0 where
  pub interval : ℤ
  pub failure_threshold : ℤ
  pub backoff_base : ℤ
  pub backoff_max : ℤ

abbrev or_default : ℤ → ℤ → ℤ
or_default z def = if leb_ℤ z (pos 0) then def else z

-- The defaults that the health checker fills in before its loop.
unfoldable pub with_defaults : HealthConfig → HealthConfig
with_defaults cfg =
    let base = or_default cfg.backoff_base second in
    record {
      interval = or_default cfg.interval (pos (5 * 10 ^ 9));
      failure_threshold = or_default cfg.failure_threshold (pos 3);
      backoff_base = base;
      backoff_max = if ltb_ℤ cfg.backoff_max base then pos (30 * 10 ^ 9) else cfg.backoff_max;
    }

-- The loop of backoffFor, `n` rounds of it.
unfoldable pub double_delay : ℕ → ℤ → ℤ → ℤ
double_delay zero delay max = delay
double_delay (suc n) delay max =
    let next = mul64 delay (pos 2) in
    let rest = double_delay n next max in if ltb_ℤ next max then rest else max

-- A negative count is taken as zero.
unfoldable pub backoff_for : ℤ → HealthConfig → ℤ
unfolding double_delay
backoff_for (pos n) cfg = double_delay n cfg.backoff_base cfg.backoff_max
backoff_for (negsuc n) cfg = cfg.backoff_base

-- int(delay.Seconds()), for the delays below 2^22 seconds, where a double holds the nanoseconds.
unfoldable pub whole_seconds : ℤ → ℤ
whole_seconds (pos n) = pos (n / 10 ^ 9)
whole_seconds (negsuc n) = let q = suc n / 10 ^ 9 in elim q [ zero ↦ pos 0 | suc m ↦ negsuc m ]

abbrev or_never : Option ℤ → ℤ
or_never none = pos 0
or_never (some z) = z

-- How long a failed pod waits.
unfoldable pub restart_wait : PodSpec → HealthConfig → ℤ
restart_wait pod cfg = or_default (mul64 pod.backoff_next_seconds second) cfg.backoff_base

-- Whether the delay since the last restart is still running at a time. Without a readable time of
-- the last restart it is over.
unfoldable pub still_waiting : PodSpec → HealthConfig → ℤ → Bool
unfolding restart_wait
still_waiting pod cfg clock =
    let last = or_never (parse_int64 pod.last_restart_at) in
    ltb_ℤ (pos 0) last && ltb_ℤ (clock -ℤ last *ℤ second) (restart_wait pod cfg)

module _ {r : Redis} (e : Env r) (os : Machine) (node_id : Str) (cfg : HealthConfig) where
  pod_alive : PodSpec → Bool → Client r Bool
  pod_alive pod false = pure false
  pod_alive pod true =
      if eq_ℤ pod.host_port (pos 0) then pure true else observe (λ t. os.answers t pod.host_port)

  unfoldable pub pod_healthy : PodSpec → Client r Bool
  unfolding pod_alive
  pod_healthy pod =
      if eq_ℤ pod.pid (pos 0)
      then pure false
      else (do same ← is_same_process os pod.pid pod.pid_start_time; pod_alive pod same)

  -- The counters advance before the spawn is tried.
  pub restart : PodSpec → Client r Unit
  restart pod = do
    at_time ← now e
    let count = add64 pod.restart_count (pos 1)
    hash_set e (pod_key pod.deployment pod.pod_id) (
        (field_pod_restart_count, format_int count)
        ∷ (field_pod_backoff_next_sec, format_int (whole_seconds (backoff_for count cfg)))
        ∷ (field_pod_last_restart_at, format_int at_time)
        ∷ (field_pod_consec_failures, format_int (pos 0))
        ∷ (field_pod_status, status_crash_loop_back_off)
        ∷ [])
    report e info (codes "pod_restarting")
    spawn e os node_id pod.deployment pod.pod_id

  unfoldable pub restart_if_backoff_elapsed : PodSpec → Client r Unit
  unfolding restart
  restart_if_backoff_elapsed pod = do
    clock ← observe os.clock
    (if still_waiting pod cfg clock then pure tt else restart pod)

  -- A success clears the count of failures.
  probe_passed : PodSpec → Client r Unit
  probe_passed pod = if eq_ℤ pod.consecutive_failures (pos 0) then pure tt else (do
    at_time ← now e
    hash_set e (pod_key pod.deployment pod.pod_id) (
        (field_pod_consec_failures, format_int (pos 0))
        ∷ (field_pod_last_health_ok_at, format_int at_time)
        ∷ []))

  probe_failed : PodSpec → Client r Unit
  probe_failed pod =
      let failures = add64 pod.consecutive_failures (pos 1) in
      if ltb_ℤ failures cfg.failure_threshold
      then (do
        report e warn (codes "pod_probe_failed")
        hash_set e (pod_key pod.deployment pod.pod_id)
            ((field_pod_consec_failures, format_int failures) ∷ []))
      else (do
        report e warn (codes "pod_declared_failed")
        at_time ← now e
        hash_set e (pod_key pod.deployment pod.pod_id) (
            (field_pod_status, status_failed)
            ∷ (field_pod_consec_failures, format_int failures)
            ∷ (
              field_pod_backoff_next_sec,
              format_int (whole_seconds (backoff_for pod.restart_count cfg)),
            )
            ∷ (field_pod_last_restart_at, format_int at_time)
            ∷ []))

  unfoldable pub check_pod : PodSpec → Client r Unit
  unfolding probe_passed probe_failed
  check_pod pod =
      if str_eq pod.status status_crash_loop_back_off || str_eq pod.status status_failed
      then restart_if_backoff_elapsed pod
      else (do healthy ← pod_healthy pod; (if healthy then probe_passed pod else probe_failed pod))

  -- The pod that a key holds, where this node must look after it.
  own_pod : Hash → Option PodSpec
  own_pod [] = none
  own_pod (f ∷ fields) = elim (map_to_pod (f ∷ fields)) [
    | err _ ↦ none
    | ok pod ↦
        if not (str_eq pod.node_id node_id) || str_eq pod.status status_evicted
        then none
        else some pod
  ]

  check_found : Option PodSpec → Client r Unit → Client r Unit
  check_found none more = more
  check_found (some pod) more = do
    outcome ← try (check_pod pod)
    handle outcome (λ _. more)
        (λ _. do
          done ← cancelled e
          if done
              then fail interrupted
              else (do report e warn (codes "pod_health_check_failed"); more))

  check_keys : List Str → Client r Unit
  unfolding own_pod check_found
  check_keys [] = pure tt
  check_keys (key ∷ keys) = do
    fields ← try (hash_get e key)
    let more = check_keys keys
    handle fields (λ h. check_found (own_pod h) more) (λ _. more)

  unfoldable pub check_once : Client r Unit
  unfolding check_keys
  check_once = do keys ← scan_keys e pod_key_pattern; check_keys keys
