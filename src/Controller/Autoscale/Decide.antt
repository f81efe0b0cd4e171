-- ===== src/Controller/Autoscale/Decide.antt =====
-- internal/controller/autoscale.go: the decision of the script.
use orchestration.Prelude.{
  ℕ, suc, ◌+◌, ◌-◌, ◌*◌, ◌/◌, ◌<◌, ◌≤◌, ◌≡◌, ◌≢◌, sym, subst, true, ◌⊎◌, inl, inr, arith,
}
use orchestration.Prelude.Int.{ℤ, pos, ◌≤ℤ◌, ◌<ℤ◌, ◌-ℤ◌, ◌*ℤ◌, ltb_ℤ, -ℤ_parts}
use orchestration.Prelude.Text.{Str, str_eq_refl}
use orchestration.Prelude.Decimal.{format_int}
use orchestration.Redis.{Redis, RedisLaws, IsExact}
use orchestration.Client.{ok}
use orchestration.Capacity.Safe.{number_at-hset}
use orchestration.Schema.Fields.{
  field_desired_replicas, field_last_scale_up_at, field_last_scale_down_at,
}
use orchestration.Controller.Autoscale.{
  scaled_up, scaled_down, Reply, Settings, wanted, ceil_div, ceil_ratio, at_least, at_most, later,
  decide, rescaled, settings_of,
}

-- The count that the script wants lies within the deployment's bounds.
wanted_bounds :
    (s : Settings) (observed : ℤ)
    → s.min_r ≤ℤ s.max_r
    → (s.min_r ≤ℤ wanted s observed) × (wanted s observed ≤ℤ s.max_r)
unfolding wanted
wanted_bounds s observed h = clamped (ceil_ratio (s.desired *ℤ observed) s.target)
  where
    clamped :
        (w : ℤ)
        → (s.min_r ≤ℤ at_most s.max_r (at_least s.min_r w))
          × (at_most s.max_r (at_least s.min_r w) ≤ℤ s.max_r)
    clamped w = ground arith

later-up : (a b : ℤ) → a ≤ℤ later a b
later-up a b = ground arith

later-down : (a b : ℤ) → b ≤ℤ later a b
later-down a b = ground arith

ceil_div-upper : (n d : ℕ) → n ≤ (n + (suc d - 1)) / suc d * suc d
ceil_div-upper n d = grind arith

ceil_div-lower : (n d : ℕ) → (n + (suc d - 1)) / suc d * suc d < n + suc d
ceil_div-lower n d = grind arith

-- For a deployment with a positive target and counts that are not negative, the count wanted is the
-- least within the bounds that brings the load to the target: unless it is the maximum, so many
-- replicas carry the observed load at the target, and unless it is the minimum, one less does not.
pub wanted_least :
    (s : Settings) (d o t w : ℕ)
    → s.desired ≡ pos d
    → s.target ≡ pos (suc t)
    → s.min_r ≤ℤ s.max_r
    → wanted s (pos o) ≡ pos w
    → (pos w <ℤ s.max_r → d * o ≤ w * suc t) × (s.min_r <ℤ pos w → w * suc t < d * o + suc t)
unfolding wanted ceil_div ◌*ℤ◌
wanted_least s d o t w ed et h ew = split (ratio ed et)
  where
    q : ℕ
    q = (d * o + (suc t - 1)) / suc t

    ratio :
        s.desired ≡ pos d
        → s.target ≡ pos (suc t)
        → at_most s.max_r (at_least s.min_r (pos q)) ≡ pos w
    ratio a b = ground (arith, ew)

    split :
        at_most s.max_r (at_least s.min_r (pos q)) ≡ pos w
        → (pos w <ℤ s.max_r → d * o ≤ w * suc t) × (s.min_r <ℤ pos w → w * suc t < d * o + suc t)
    split e = ((λ below. up (ground arith)), (λ above. down (ground arith)))
      where
        up : q ≤ w → d * o ≤ w * suc t
        up k = grind (arith, ceil_div-upper (d * o) t)

        down : w ≤ q → w * suc t < d * o + suc t
        down k = grind (arith, ceil_div-lower (d * o) t)

module _ (r : Redis) (laws : RedisLaws r) (key : Str) (at up_cool down_cool : ℤ) where
  -- A decision that changes the count moves it to a value within the bounds, records it with the
  -- time, and is made only after the cooldown; one that does not change it writes nothing.
  pub decide_lem :
      (s : Settings) (observed : ℤ) (db : r.Db) (x : Reply)
      → s.min_r ≤ℤ s.max_r
      → (decide r key at up_cool down_cool s observed db).0 ≡ ok x
      → let db' = (decide r key at up_cool down_cool s observed db).1 in
        ((x.to ≡ x.from) × (db' ≡ db))
        ⊎ ((s.min_r ≤ℤ x.to)
            × (x.to ≤ℤ s.max_r)
            × (((x.outcome ≡ scaled_up)
                  × (x.from <ℤ x.to)
                  × (up_cool ≤ℤ at -ℤ s.last_up)
                  × (db' ≡ rescaled r db key field_last_scale_up_at x.to at))
                ⊎ ((x.outcome ≡ scaled_down)
                    × (x.to <ℤ x.from)
                    × (down_cool ≤ℤ at -ℤ later s.last_up s.last_down)
                    × (db' ≡ rescaled r db key field_last_scale_down_at x.to at))))
  unfolding decide
  decide_lem s observed db x h e = ground (arith, wanted_bounds s observed h)

  blocked :
      (s : Settings) (observed : ℤ) (db : r.Db) (x : Reply)
      → ltb_ℤ (at -ℤ later s.last_up s.last_down) down_cool ≡ true
      → (decide r key at up_cool down_cool s observed db).0 ≡ ok x
      → x.outcome ≢ scaled_down
  unfolding decide
  blocked s observed db x b e q = ground arith

  -- What the next run reads of the times, after a run that changed the count.
  rescaled_up-later :
      (db : r.Db) (w : ℤ)
      → IsExact at
      → at ≤ℤ (settings_of r (rescaled r db key field_last_scale_up_at w at) key).last_up
  unfolding settings_of
  rescaled_up-later db w x =
      rw
        (
          number_at-hset r laws (r.hset db key field_desired_replicas (format_int w)) key
              field_last_scale_up_at (format_int at) key field_last_scale_up_at,
          str_eq_refl key,
          laws.tonumber-format_int at x,
        )
        (omega arith)

  rescaled_down-later :
      (db : r.Db) (w : ℤ)
      → IsExact at
      → at ≤ℤ (settings_of r (rescaled r db key field_last_scale_down_at w at) key).last_down
  unfolding settings_of
  rescaled_down-later db w x =
      rw
        (
          number_at-hset r laws (r.hset db key field_desired_replicas (format_int w)) key
              field_last_scale_down_at (format_int at) key field_last_scale_down_at,
          str_eq_refl key,
          laws.tonumber-format_int at x,
        )
        (omega arith)

too_early :
    (now' at l down_cool : ℤ)
    → at ≤ℤ l
    → now' -ℤ at <ℤ down_cool
    → ltb_ℤ (now' -ℤ l) down_cool ≡ true
too_early now' at l down_cool h k = ground (arith, -ℤ_parts now' at, -ℤ_parts now' l)

-- No flapping: once a run has changed the count, in either direction, no run within the scale-down
-- cooldown after it removes replicas, whatever load it observes.
pub no_flap :
    (r : Redis) (laws : RedisLaws r) (key : Str) (at now' up_cool down_cool observed observed' : ℤ)
    (db : r.Db) (x y : Reply)
    → let s = settings_of r db key in
      let db' = (decide r key at up_cool down_cool s observed db).1 in
      s.min_r ≤ℤ s.max_r
      → IsExact at
      → (decide r key at up_cool down_cool s observed db).0 ≡ ok x
      → x.to ≢ x.from
      → now' -ℤ at <ℤ down_cool
      → (decide r key now' up_cool down_cool (settings_of r db' key) observed' db').0 ≡ ok y
      → y.outcome ≢ scaled_down
no_flap r laws key at now' up_cool down_cool observed observed' db x y h fits e moved early e' =
    elim (decide_lem r laws key at up_cool down_cool (settings_of r db key) observed db x h e) [
      | inl same ↦ absurd (moved same.0)
      | inr change ↦ after change.2
    ]
  where
    db' : r.Db
    db' = (decide r key at up_cool down_cool (settings_of r db key) observed db).1

    s' : Settings
    s' = settings_of r db' key

    stopped : at ≤ℤ later s'.last_up s'.last_down → y.outcome ≢ scaled_down
    stopped l =
        blocked r laws key now' up_cool down_cool s' observed' db' y
          (too_early now' at (later s'.last_up s'.last_down) down_cool l early) e'

    from_up : db' ≡ rescaled r db key field_last_scale_up_at x.to at → y.outcome ≢ scaled_down
    from_up p = stopped (
        omega (
          arith,
          later-up s'.last_up s'.last_down,
          subst (λ d. at ≤ℤ (settings_of r d key).last_up) (sym p)
              (rescaled_up-later r laws key at up_cool down_cool db x.to fits),
        ))

    from_down : db' ≡ rescaled r db key field_last_scale_down_at x.to at → y.outcome ≢ scaled_down
    from_down p = stopped (
        omega (
          arith,
          later-down s'.last_up s'.last_down,
          subst (λ d. at ≤ℤ (settings_of r d key).last_down) (sym p)
              (rescaled_down-later r laws key at up_cool down_cool db x.to fits),
        ))

    after :
        ((x.outcome ≡ scaled_up)
            × (x.from <ℤ x.to)
            × (up_cool ≤ℤ at -ℤ (settings_of r db key).last_up)
            × (db' ≡ rescaled r db key field_last_scale_up_at x.to at))
          ⊎ ((x.outcome ≡ scaled_down)
              × (x.to <ℤ x.from)
              × (down_cool
                  ≤ℤ at -ℤ later (settings_of r db key).last_up (settings_of r db key).last_down)
              × (db' ≡ rescaled r db key field_last_scale_down_at x.to at))
        → y.outcome ≢ scaled_down
    after (inl up) = from_up up.3
    after (inr down) = from_down down.3
