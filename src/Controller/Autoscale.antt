-- ===== src/Controller/Autoscale.antt =====
-- internal/controller/autoscale.go: the script that decides one deployment's replica count, and the
-- Go code around it. A SCAN in a script has `pages` pages to come to its end; the averages are
-- doubles, and the other numbers integers that a double holds exactly.
pub mod Decide
pub mod Safe
use orchestration.Prelude.{
  ℕ, zero, suc, ◌+◌, ◌-◌, ◌/◌, Bool, true, false, not, ◌||◌, Option, none, some, List, [], ◌∷◌,
  ◌++◌, ◌==◌, if◌then◌else◌,
}
use orchestration.Prelude.Int.{ℤ, pos, negsuc, ◌+ℤ◌, ◌-ℤ◌, ◌*ℤ◌, ltb_ℤ, leb_ℤ, eq_ℤ}
use orchestration.Prelude.Text.{Str, codes, str_eq, trim_prefix}
use orchestration.Prelude.Decimal.{format_int}
use orchestration.Prelude.Float.{Float}
use orchestration.Redis.{Redis}
use orchestration.Client.{
  Error, Result, ok, err, script_failed, interrupted, info, warn, error, Env, Client, Script, pure,
  fail, try, handle, ◌>>=◌, ◌>>◌, eval_script, scan_keys, now, cancelled, report,
}
use orchestration.Schema.Keys.{deployment_key, deployment_key_pattern}
use orchestration.Schema.Fields.{
  field_desired_replicas, field_min_replicas, field_max_replicas, field_target_cpu_percent,
  field_last_scale_up_at, field_last_scale_down_at,
}
use orchestration.Capacity.{number_at}
use orchestration.Events.{DeploymentEvent, event_update, publish_event}

-- The first word of the script's reply.
pub data Outcome : Type 0 where
  missing no_target no_telemetry steady : Outcome
  up_cooldown scaled_up down_cooldown scaled_down : Outcome

-- The script's reply.
pub record Reply : Type 0 where
  pub outcome : Outcome
  pub from : ℤ
  pub to : ℤ
  pub observed : ℤ

abbrev reply : Outcome → ℤ → ℤ → ℤ → Reply
reply outcome from to observed = record {
  outcome = outcome;
  from = from;
  to = to;
  observed = observed;
}

-- What the script reads of the deployment, with its defaults.
pub record Settings : Type 0 where
  pub desired : ℤ
  pub min_r : ℤ
  pub max_r : ℤ
  pub target : ℤ
  pub last_up : ℤ
  pub last_down : ℤ

abbrev pub or_default : Option ℤ → ℤ → ℤ
or_default none d = d
or_default (some z) d = z

-- math.ceil(n / d) for a positive d
unfoldable pub ceil_div : ℤ → ℕ → ℤ
ceil_div (pos n) d = pos ((n + (d - 1)) / d)
ceil_div (negsuc n) d = elim (suc n / d) [ zero ↦ pos 0 | suc k ↦ negsuc k ]

abbrev ceil_ratio : ℤ → ℤ → ℤ
ceil_ratio n (pos d) = ceil_div n d
ceil_ratio n (negsuc d) = pos 0

abbrev at_least : ℤ → ℤ → ℤ
at_least lo w = if ltb_ℤ w lo then lo else w

abbrev at_most : ℤ → ℤ → ℤ
at_most hi w = if ltb_ℤ hi w then hi else w

-- The ratio, first raised to the minimum and then lowered to the maximum.
unfoldable pub wanted : Settings → ℤ → ℤ
wanted s observed = at_most s.max_r (at_least s.min_r (ceil_ratio (s.desired *ℤ observed) s.target))

abbrev pub later : ℤ → ℤ → ℤ
later up down = if ltb_ℤ up down then down else up

module _ (r : Redis) where
  unfoldable pub settings_of : r.Db → Str → Settings
  settings_of db key = record {
    desired = or_default (number_at r db key field_desired_replicas) (pos 0);
    min_r = or_default (number_at r db key field_min_replicas) (pos 1);
    max_r = or_default (number_at r db key field_max_replicas) (pos 1);
    target = or_default (number_at r db key field_target_cpu_percent) (pos 0);
    last_up = or_default (number_at r db key field_last_scale_up_at) (pos 0);
    last_down = or_default (number_at r db key field_last_scale_down_at) (pos 0);
  }

  -- HSET of the new count with one of the two times.
  abbrev pub rescaled : r.Db → Str → Str → ℤ → ℤ → r.Db
  rescaled db key time_field count at =
      r.hset (r.hset db key field_desired_replicas (format_int count)) key time_field
        (format_int at)

  -- The script from the observed percentage on.
  unfoldable pub decide : Str → ℤ → ℤ → ℤ → Settings → ℤ → Script r Reply
  decide key at up_cool down_cool s observed db =
      let w = wanted s observed in
      if eq_ℤ w s.desired
      then (ok (reply steady s.desired s.desired observed), db)
      else if ltb_ℤ s.desired w
      then (if ltb_ℤ (at -ℤ s.last_up) up_cool
          then (ok (reply up_cooldown s.desired s.desired observed), db)
          else (
            ok (reply scaled_up s.desired w observed),
            rescaled db key field_last_scale_up_at w at,
          ))
      else (if ltb_ℤ (at -ℤ later s.last_up s.last_down) down_cool
          then (ok (reply down_cooldown s.desired s.desired observed), db)
          else (
            ok (reply scaled_down s.desired w observed),
            rescaled db key field_last_scale_down_at w at,
          ))

  -- The sum and the number of a pod's samples that are numbers.
  pod_sum : List Str → ℤ → ℕ → ℤ × ℕ
  pod_sum [] total n = (total, n)
  pod_sum (v ∷ samples) total n = elim (r.tonumber v) [
    | none ↦ pod_sum samples total n
    | some z ↦ pod_sum samples (total +ℤ z) (suc n)
  ]

  module _ (fl : Float) where
    -- A pod with no samples is passed over.
    add_pod : ℤ × ℕ → fl.F × ℕ → fl.F × ℕ
    add_pod (total, n) (sum, count) =
        if n == 0
        then (sum, count)
        else (fl.add sum (fl.div (fl.of_int total) (fl.of_int (pos n))), count + 1)

    add_pods : r.Db → ℤ → List Str → fl.F × ℕ → fl.F × ℕ
    unfolding add_pod pod_sum
    add_pods db window [] acc = acc
    add_pods db window (key ∷ keys) acc =
        add_pods db window keys
          (add_pod (pod_sum (r.lrange db key (pos 0 -ℤ window) (negsuc 0)) (pos 0) 0) acc)

    -- The `repeat … until cursor == "0"` of the script, which changes nothing.
    scan_samples : ℕ → r.Db → ℕ → Str → ℤ → fl.F × ℕ → Option (fl.F × ℕ)
    unfolding add_pods
    scan_samples zero db cursor pattern window acc = none
    scan_samples (suc pages) db cursor pattern window acc =
        let page = r.scan db cursor pattern in
        let acc' = add_pods db window page.0 acc in
        let rest = scan_samples pages db page.1 pattern window acc' in
        if page.1 == 0 then some acc' else rest

    -- math.floor(sum / count)
    unfoldable pub observe : fl.F → ℕ → ℤ
    observe sum count = fl.floor (fl.div sum (fl.of_int (pos count)))

    unfoldable pub after_scan : Str → ℤ → ℤ → ℤ → Settings → Option (fl.F × ℕ) → Script r Reply
    after_scan key at up_cool down_cool s none db = (err script_failed, db)
    after_scan key at up_cool down_cool s (some (sum, zero)) db =
        (ok (reply no_telemetry s.desired s.desired (pos 0)), db)
    after_scan key at up_cool down_cool s (some (sum, suc n)) db =
        decide key at up_cool down_cool s (observe sum (suc n)) db

    unfoldable pub autoscale_script : ℕ → Str → Str → ℤ → ℤ → ℤ → ℤ → Script r Reply
    unfolding after_scan scan_samples
    autoscale_script pages key pattern at up_cool down_cool window db =
        let s = settings_of db key in
        let scanned = scan_samples pages db 0 pattern window (fl.of_int (pos 0), 0) in
        if not (r.exists db key)
        then (ok (reply missing (pos 0) (pos 0) (pos 0)), db)
        else if leb_ℤ s.target (pos 0)
        then (ok (reply no_target s.desired s.desired (pos 0)), db)
        else after_scan key at up_cool down_cool s scanned db

pub record AutoscaleConfig : Type 0 where
  -- whole seconds
  pub interval : ℤ
  pub scale_up_cooldown : ℤ
  pub scale_down_cooldown : ℤ

-- NewAutoscaler's defaults for what is unset.
unfoldable pub new_config : AutoscaleConfig → AutoscaleConfig
new_config cfg = record {
  interval = if leb_ℤ cfg.interval (pos 0) then pos 15 else cfg.interval;
  scale_up_cooldown = if leb_ℤ cfg.scale_up_cooldown (pos 0) then pos 30 else cfg.scale_up_cooldown;
  scale_down_cooldown =
      if leb_ℤ cfg.scale_down_cooldown (pos 0) then pos 180 else cfg.scale_down_cooldown;
}

pub record Decision : Type 0 where
  pub deployment : Str
  pub outcome : Outcome
  pub from : ℤ
  pub to : ℤ
  pub observed_cpu : ℤ

unfoldable pub changed : Decision → Bool
changed d = not (eq_ℤ d.from d.to)

abbrev telemetry_window : ℤ
telemetry_window = pos 3

unfoldable pub telemetry_pattern : Str → Str
telemetry_pattern deployment = codes "telemetry:" ++ (deployment ++ codes ":*:cpu")

abbrev parse_decision : Str → Reply → Decision
parse_decision name x = record {
  deployment = name;
  outcome = x.outcome;
  from = x.from;
  to = x.to;
  observed_cpu = x.observed;
}

module _ {r : Redis} (fl : Float) (e : Env r) (cfg : AutoscaleConfig) where
  -- The event is only a latency win: a publish that fails is logged.
  announce : Decision → Client r Unit
  announce d = do
    report e info (codes "deployment_autoscaled")
    sent ← try (
        publish_event e
          (record { event = event_update; deployment = d.deployment; desired = d.to }))
    handle sent (λ _. pure tt) (λ _. report e warn (codes "autoscale_event_publish_failed"))

  unfoldable pub evaluate : Str → Client r Decision
  unfolding announce
  evaluate name = do
    at ← now e
    x ← eval_script e (
        autoscale_script r fl e.pages (deployment_key name) (telemetry_pattern name) at
          cfg.scale_up_cooldown cfg.scale_down_cooldown telemetry_window)
    let d = parse_decision name x
    (if changed d then announce d else pure tt)
    pure d

  -- After an error: leave when the context is done, and otherwise log it and go on.
  skip_failed : Client r (List Decision × Option Error) → Client r (List Decision × Option Error)
  skip_failed more = do
    done ← cancelled e
    if done
        then pure ([], some interrupted)
        else (do report e error (codes "autoscale_failed"); more)

  evaluate_keys : List Str → Client r (List Decision × Option Error)
  unfolding skip_failed
  evaluate_keys [] = pure ([], none)
  evaluate_keys (key ∷ keys) =
      let name = trim_prefix key (codes "deployment:") in
      let more = evaluate_keys keys in
      if str_eq name [] || str_eq name key then more else do
        x ← try (evaluate name)
        handle x (λ d. do rest ← more; pure (d ∷ rest.0, rest.1)) (λ _. skip_failed more)

  unfoldable pub evaluate_all : Client r (List Decision × Option Error)
  unfolding evaluate_keys
  evaluate_all = do keys ← scan_keys e deployment_key_pattern; evaluate_keys keys
