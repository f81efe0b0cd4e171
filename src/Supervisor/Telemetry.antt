-- ===== src/Supervisor/Telemetry.antt =====
-- internal/supervisor/telemetry.go: the CPU use of a node's pods, as the agent samples it. Times are
-- in nanoseconds. The map of baselines is a list of pods with their last samples.
pub mod Baselines
pub mod Ticks
use orchestration.Prelude.{
  ℕ, ◌+◌, ◌-◌, ◌%◌, ◌*◌, ◌/◌, ◌^◌, Bool, true, false, not, ◌&&◌, ◌||◌, Option, none, some, List, [],
  ◌∷◌, ◌++◌, if◌then◌else◌, any, keep, ltb,
}
use orchestration.Prelude.Int.{ℤ, pos, negsuc, ◌-ℤ◌, ltb_ℤ, leb_ℤ, mul64}
use orchestration.Prelude.Text.{Str, codes, str_eq}
use orchestration.Prelude.Decimal.{format_int}
use orchestration.Prelude.Float.{Float}
use orchestration.Redis.{Redis, Hash}
use orchestration.Client.{
  Error, Result, ok, err, interrupted, warn, Env, Client, pure, try, handle, ◌>>=◌, ◌>>◌, hash_get,
  scan_keys, list_push, list_trim, expire_key, observe, cancelled, report,
}
use orchestration.Schema.Keys.{pod_key_pattern, telemetry_cpu_key}
use orchestration.Schema.Fields.{status_running}
use orchestration.Schema.Codec.{PodSpec, map_to_pod}
use orchestration.Supervisor.Machine.{Machine}
use orchestration.Supervisor.Process.{stat_fields, number_field, is_same_process}

-- Cumulative CPU time at a point in time.
pub record Sample : Type 0 where
  pub ticks : ℕ
  pub at : ℤ

abbrev pub Baselines : Type 0
Baselines = List (Str × Sample)

-- last[id]
unfoldable pub baseline : Str → Baselines → Option Sample
baseline id [] = none
baseline id ((i, s) ∷ last) = if str_eq i id then some s else baseline id last

-- last[id] = s
unfoldable pub set_baseline : Str → Sample → Baselines → Baselines
set_baseline id s [] = (id, s) ∷ []
set_baseline id s ((i, t) ∷ last) =
    if str_eq i id then (i, s) ∷ last else (i, t) ∷ set_baseline id s last

abbrev sum_ticks : Option ℕ → Option ℕ → Option ℕ
sum_ticks (some utime) (some stime) = some ((utime + stime) % 2 ^ 64)
sum_ticks _ _ = none

-- Fields 14 and 15, counted from the state, which is field 3; the sum wraps.
unfoldable pub cpu_ticks : Str → Option ℕ
cpu_ticks line = sum_ticks (number_field 11 (stat_fields line)) (number_field 12 (stat_fields line))

abbrev ticks_or_none : Option Str → Option ℕ
ticks_or_none none = none
ticks_or_none (some line) = cpu_ticks line

-- What the percentage needs of a double besides Float: a product, and Go's conversion to int, which
-- drops the fraction.
pub record Rate (fl : Float) : Type 0 where
  pub mul : fl.F → fl.F → fl.F
  pub to_int : fl.F → ℤ

module _ (fl : Float) (rate : Rate fl) where
  -- Duration.Seconds, of a positive duration
  seconds : ℤ → fl.F
  seconds (pos n) =
      fl.add (fl.of_int (pos (n / 10 ^ 9)))
        (fl.div (fl.of_int (pos (n % 10 ^ 9))) (fl.of_int (pos (10 ^ 9))))
  seconds (negsuc n) = fl.of_int (pos 0)

  -- int(cpuSeconds / elapsed * 1000 / request * 100)
  percent_of : ℕ → ℤ → ℤ → ℤ
  unfolding seconds
  percent_of ticks elapsed request =
      let cpu_seconds = fl.div (fl.of_int (pos ticks)) (fl.of_int (pos 100)) in
      let used = rate.mul (fl.div cpu_seconds (seconds elapsed)) (fl.of_int (pos 1000)) in
      rate.to_int (rate.mul (fl.div used (fl.of_int request)) (fl.of_int (pos 100)))

  unfoldable pub cpu_percent_of_request : Sample → Sample → ℤ → ℤ
  unfolding percent_of
  cpu_percent_of_request prev cur request =
      let elapsed = cur.at -ℤ prev.at in
      let percent = percent_of (cur.ticks - prev.ticks) elapsed request in
      if leb_ℤ elapsed (pos 0) || (leb_ℤ request (pos 0) || ltb cur.ticks prev.ticks)
      then pos 0
      else if ltb_ℤ percent (pos 0)
      then pos 0
      else percent

-- The baselines, and the pods seen in this sweep.
abbrev pub Sweep : Type 0
Sweep = Baselines × List Str

-- delete(last, id) for every id that was not seen
unfoldable pub drop_unseen : Sweep → Baselines
drop_unseen (last, seen) = keep (λ b. any (str_eq b.0) seen) last

abbrev pub pod_id_of : PodSpec → Str
pod_id_of pod = pod.deployment ++ (codes "/" ++ pod.pod_id)

-- The pod that a hash holds, where this node samples it.
unfoldable pub sampled_pod : Str → Hash → Option PodSpec
sampled_pod node_id [] = none
sampled_pod node_id (f ∷ fields) = elim (map_to_pod (f ∷ fields)) [
  | err _ ↦ none
  | ok pod ↦
      if not (str_eq pod.node_id node_id)
        || (not (str_eq pod.status status_running) || leb_ℤ pod.pid (pos 0))
      then none
      else some pod
]

-- The end of a sweep.
abbrev pub finish : Sweep × Option Error → Baselines × Result {0} Unit
finish (s, none) = (drop_unseen s, ok tt)
finish ((last, seen), some cause) = (last, err cause)

module _ {r : Redis} where
  abbrev pub unless_stopped :
      (Sweep → Client r (Sweep × Option Error))
      → Sweep × Option Error
      → Client r (Sweep × Option Error)
  unless_stopped more (s, none) = more s
  unless_stopped more (s, some cause) = pure (s, some cause)

module _ {r : Redis} (fl : Float) (rate : Rate fl) (e : Env r) (os : Machine) (node_id : Str)
    (interval : ℤ) where
  unfoldable pub publish_sample : PodSpec → ℤ → Client r Unit
  publish_sample pod percent = do
    let key = telemetry_cpu_key pod.deployment pod.pod_id
    let every = if leb_ℤ interval (pos 0) then pos (5 * 10 ^ 9) else interval
    list_push e key (format_int percent)
    list_trim e key (negsuc 2) (negsuc 0)
    expire_key e key (mul64 every (pos 4))

  -- The ticks of a pod's own process; `none` where it cannot be told apart or has ended.
  unfoldable pub process_ticks : PodSpec → Client r (Option ℕ)
  process_ticks pod = do
    same ← is_same_process os pod.pid pod.pid_start_time
    (if same
        then (do line ← observe (λ t. os.stat t pod.pid); pure (ticks_or_none line))
        else pure none)

  -- The first sample of a pod is only remembered. An error ends the sweep when it is cancelled.
  publish_change : PodSpec → Sample → Option Sample → Client r (Option Error)
  unfolding publish_sample
  publish_change pod cur none = pure none
  publish_change pod cur (some prev) = do
    let percent = cpu_percent_of_request fl rate prev cur pod.cpu_request
    sent ← try (publish_sample pod percent)
    handle sent (λ _. pure none)
        (λ _. do
          done ← cancelled e
          (if done
              then pure (some interrupted)
              else (do report e warn (codes "telemetry_publish_failed"); pure none)))

  sample_ticks : PodSpec → Option ℕ → Sweep → Client r (Sweep × Option Error)
  unfolding publish_change
  sample_ticks pod none s = pure (s, none)
  sample_ticks pod (some ticks) (last, seen) = do
    clock ← observe os.clock
    let id = pod_id_of pod
    let cur : Sample = record { ticks = ticks; at = clock }
    stop ← publish_change pod cur (baseline id last)
    pure ((set_baseline id cur last, id ∷ seen), stop)

  unfoldable pub sample_pod : Option PodSpec → Sweep → Client r (Sweep × Option Error)
  unfolding sample_ticks
  sample_pod none s = pure (s, none)
  sample_pod (some pod) s = do ticks ← process_ticks pod; sample_ticks pod ticks s

  unfoldable pub sample_keys : List Str → Sweep → Client r (Sweep × Option Error)
  unfolding sample_pod
  sample_keys [] s = pure (s, none)
  sample_keys (key ∷ keys) s = do
    fields ← try (hash_get e key)
    here ← sample_pod (handle fields (λ h. sampled_pod node_id h) (λ _. none)) s
    unless_stopped (λ s'. sample_keys keys s') here

  -- The map `last` goes in and comes out beside the outcome.
  unfoldable pub collect_once : Baselines → Client r (Baselines × Result Unit)
  unfolding sample_keys
  collect_once last = do
    found ← try (scan_keys e pod_key_pattern)
    handle found (λ keys. do swept ← sample_keys keys (last, []); pure (finish swept))
        (λ cause. pure (last, err cause))
