-- ===== src/Controller/Autoscale/Safe.antt =====
-- internal/controller/autoscale.go: the sweep and the capacity of the nodes.
use orchestration.Prelude.{
  ℕ, zero, suc, ◌≡◌, refl, false, Option, none, some, List, [], ◌∷◌, Bool-cases, inl, inr,
}
use orchestration.Prelude.Int.{ℤ, ltb_ℤ, leb_ℤ, eq_ℤ, ◌-ℤ◌, pos}
use orchestration.Prelude.Text.{Str}
use orchestration.Prelude.Float.{Float}
use orchestration.Redis.{Redis, RedisLaws}
use orchestration.Client.{Env}
use orchestration.Client.Keeps.{
  Keeps, KeepsIn, Stable, flow_rules, env_rules, Keeps-eval_script, Keeps-scan_keys,
}
use orchestration.Capacity.Safe.{IsSafe, is_capacity_field, hset-IsSafe, Keeps-publish}
use orchestration.Schema.Fields.{
  field_desired_replicas, field_last_scale_up_at, field_last_scale_down_at,
}
use orchestration.Events.{publish_event}
use orchestration.Controller.Autoscale.{
  Settings, wanted, later, decide, rescaled, after_scan, autoscale_script, observe, settings_of,
  AutoscaleConfig, Decision, announce, evaluate, skip_failed, evaluate_keys, evaluate_all,
}

module _ (r : Redis) (laws : RedisLaws r) where
  decide-IsSafe :
      (key : Str) (at up_cool down_cool : ℤ) (s : Settings) (observed : ℤ) (db : r.Db)
      → IsSafe r db
      → IsSafe r (decide r key at up_cool down_cool s observed db).1
  unfolding decide
  decide-IsSafe key at up_cool down_cool s observed db h =
      elim (Bool-cases (eq_ℤ (wanted s observed) s.desired)) [
        | inl a ↦ rw a h
        | inr a ↦ elim (Bool-cases (ltb_ℤ s.desired (wanted s observed))) [
          | inl b ↦ elim (Bool-cases (ltb_ℤ (at -ℤ s.last_up) up_cool)) [
            | inl c ↦ rw (a, b, c) h
            | inr c ↦ rw (a, b, c) (written field_last_scale_up_at refl)
          ]
          | inr b ↦ elim (Bool-cases (ltb_ℤ (at -ℤ later s.last_up s.last_down) down_cool)) [
            | inl c ↦ rw (a, b, c) h
            | inr c ↦ rw (a, b, c) (written field_last_scale_down_at refl)
          ]
        ]
      ]
    where
      written :
          (f : Str)
          → is_capacity_field r f ≡ false
          → IsSafe r (rescaled r db key f (wanted s observed) at)
      written f a =
          hset-IsSafe r laws _ key f _ a (hset-IsSafe r laws db key field_desired_replicas _ refl h)

  after_scan-IsSafe :
      (fl : Float) (key : Str) (at up_cool down_cool : ℤ) (s : Settings) (x : Option (fl.F × ℕ))
      (db : r.Db)
      → IsSafe r db
      → IsSafe r (after_scan r fl key at up_cool down_cool s x db).1
  unfolding after_scan
  after_scan-IsSafe fl key at up_cool down_cool s none db h = h
  after_scan-IsSafe fl key at up_cool down_cool s (some (sum, zero)) db h = h
  after_scan-IsSafe fl key at up_cool down_cool s (some (sum, suc n)) db h =
      decide-IsSafe key at up_cool down_cool s (observe r fl sum (suc n)) db h

  autoscale_script-IsSafe :
      (fl : Float) (pages : ℕ) (key pattern : Str) (at up_cool down_cool window : ℤ)
      → KeepsIn r (IsSafe r) (autoscale_script r fl pages key pattern at up_cool down_cool window)
  unfolding autoscale_script
  autoscale_script-IsSafe fl pages key pattern at up_cool down_cool window = record {
    at = λ db h. elim (Bool-cases (r.exists db key)) [
      | inr a ↦ rw a h
      | inl a ↦ elim (Bool-cases (leb_ℤ (settings_of r db key).target (pos 0))) [
        | inl b ↦ rw (a, b) h
        | inr b ↦
            rw (a, b) (after_scan-IsSafe fl key at up_cool down_cool (settings_of r db key) _ db h)
      ]
    ];
  }

  module _ (fl : Float) (e : Env r) (st : Stable e (IsSafe r)) (cfg : AutoscaleConfig) where
    announce-Keeps : (d : Decision) → Keeps (IsSafe r) (announce fl e cfg d)
    unfolding announce publish_event
    announce-Keeps d = search (flow_rules, env_rules, Keeps-publish r laws e st)

    evaluate-Keeps : (name : Str) → Keeps (IsSafe r) (evaluate fl e cfg name)
    unfolding evaluate
    evaluate-Keeps name =
        search
          (
            flow_rules,
            env_rules,
            announce-Keeps,
            Keeps-eval_script e st,
            autoscale_script-IsSafe fl,
          )
          depth 8

    evaluate_keys_step :
        (key : Str) (keys : List Str)
        → Keeps (IsSafe r) (evaluate_keys fl e cfg keys)
        → Keeps (IsSafe r) (evaluate_keys fl e cfg (key ∷ keys))
    unfolding evaluate_keys skip_failed
    evaluate_keys_step key keys rest = search (flow_rules, env_rules, evaluate-Keeps) depth 9

    evaluate_keys-Keeps : (keys : List Str) → Keeps (IsSafe r) (evaluate_keys fl e cfg keys)
    unfolding evaluate_keys
    evaluate_keys-Keeps [] = search flow_rules
    evaluate_keys-Keeps (key ∷ keys) = evaluate_keys_step key keys (evaluate_keys-Keeps keys)

    -- An autoscaling sweep keeps every node within its totals.
    pub evaluate_all-Keeps : Keeps (IsSafe r) (evaluate_all fl e cfg)
    unfolding evaluate_all
    evaluate_all-Keeps = search (flow_rules, Keeps-scan_keys e st, evaluate_keys-Keeps)
