-- ===== src/Examples/Routes.antt =====
-- The ingress of the small cluster.
use mathlib.Core.List.{Permᴰ}
use orchestration.Prelude.{◌*◌, ◌^◌, ◌≡◌, refl, true, none, [], ◌∷◌, ◌++◌, All, inl, arith}
use orchestration.Prelude.Int.{pos, ◌+ℤ◌, ◌≤ℤ◌}
use orchestration.Prelude.Text.{Str, codes}
use orchestration.Prelude.Decimal.{format_int}
use orchestration.Redis.{hset_all}
use orchestration.Redis.Memory.{Memory, memory, empty}
use orchestration.Client.{Result, ok, World, scan_keys, ◌>>=◌, pure, call}
use orchestration.Schema.Keys.{pod_key, pod_key_pattern}
use orchestration.Schema.Codec.{pod_to_map}
use orchestration.Ingress.{Config, Host, succeeded, Backends, backends, render, sync}
use orchestration.Ingress.Installed.{IsCurrent, sync-IsCurrent}
use orchestration.Ingress.Order.{sync_again}
use orchestration.Ingress.Loop.{
  change, timer, IsBurst, due_after, LoopState, run_loop, run_loop-burst, synced,
}
use orchestration.Examples.{quiet, quiet-Calm, start, web_pod}

abbrev nginx : Host
nginx = record {
  can_create = λ t. true;
  can_write = λ t. true;
  can_close = λ t. true;
  can_chmod = λ t. true;
  can_rename = λ t. true;
  has_command = λ t bin. true;
  run = λ t argv. succeeded;
}

abbrev plain : Config
plain = record {
  config_path = codes "/etc/up.conf";
  reload_command = codes "nginx" ∷ codes "-s" ∷ codes "reload" ∷ [];
  debounce = pos (2 * 10 ^ 9);
  resync_interval = pos (30 * 10 ^ 9);
}

abbrev key_a : Str
key_a = pod_key (codes "web") (codes "a")

abbrev key_b : Str
key_b = pod_key (codes "web") (codes "b")

abbrev two_pods : Memory
two_pods =
    hset_all memory (hset_all memory empty key_a (pod_to_map (web_pod (codes "a")))) key_b
      (pod_to_map (web_pod (codes "b")))

abbrev other_way : Memory
other_way =
    hset_all memory (hset_all memory empty key_b (pod_to_map (web_pod (codes "b")))) key_a
      (pod_to_map (web_pod (codes "a")))

abbrev after : Memory → World memory
after db = record { db = db; tick = 1; log = []; acts = [] }

scan_two :
    scan_keys quiet pod_key_pattern (start two_pods) ≡ (ok (key_a ∷ key_b ∷ []), after two_pods)
unfolding pod_key pod_to_map format_int scan_keys ◌>>=◌ pure call pod_key_pattern
scan_two = refl

scan_other :
    scan_keys quiet pod_key_pattern (start other_way) ≡ (ok (key_b ∷ key_a ∷ []), after other_way)
unfolding pod_key pod_to_map format_int scan_keys ◌>>=◌ pure call pod_key_pattern
scan_other = refl

same_hashes :
    All (λ key. memory.hgetall two_pods key ≡ memory.hgetall other_way key) (key_a ∷ key_b ∷ [])
unfolding pod_key pod_to_map format_int
same_hashes = (refl, (refl, tt))

sync_again_example :
    (b : Backends) × ((backends quiet (start two_pods)).0 ≡ ok b)
    × ((sync quiet nginx plain (render b) (start other_way)).0 ≡ ok (render b, ok tt))
    × ((sync quiet nginx plain (render b) (start other_way)).1.acts ≡ [])
sync_again_example =
    sync_again quiet quiet-Calm nginx plain (key_a ∷ key_b ∷ []) (key_b ∷ key_a ∷ [])
      (start two_pods) (after two_pods) (start other_way) (after other_way) scan_two scan_other
      ∣ Permᴰ.swap refl refl ∣₁ same_hashes

sync-IsCurrent_example :
    (last' : Str) × (outcome : Result (Unit {0})) × ((sync quiet nginx plain [] (start two_pods)).0
      ≡ ok (last', outcome))
    × IsCurrent (codes "/etc/up.conf") last' (sync quiet nginx plain [] (start two_pods)).1.acts
    × (outcome ≡ ok tt
        → (b : Backends) × ((backends quiet (start two_pods)).0 ≡ ok b) × (last' ≡ render b))
sync-IsCurrent_example = sync-IsCurrent quiet nginx plain [] (start two_pods) (inl refl)

abbrev idle_loop : LoopState
idle_loop = record { last = []; armed = none }

in_time :
    IsBurst plain.debounce
      (pos 0 +ℤ plain.debounce)
      (timer (pos (10 ^ 8)) ∷ change (pos (5 * 10 ^ 8)) ∷ [])
unfolding ◌+ℤ◌
in_time = (omega arith, tt)

quiet_then :
    due_after plain.debounce
      (pos 0 +ℤ plain.debounce)
      (timer (pos (10 ^ 8)) ∷ change (pos (5 * 10 ^ 8)) ∷ [])
    ≤ℤ pos (3 * 10 ^ 9)
unfolding ◌+ℤ◌
quiet_then = omega arith

-- Two changes half a second apart, a look in between, and a look after the debounce time.
run_loop-burst_example :
    run_loop quiet nginx plain
      (change (pos 0) ∷ (timer (pos (10 ^ 8)) ∷ change (pos (5 * 10 ^ 8)) ∷ [])
        ++ timer (pos (3 * 10 ^ 9)) ∷ [])
      idle_loop
      (start two_pods)
    ≡ synced quiet nginx plain [] (start two_pods)
run_loop-burst_example =
    run_loop-burst quiet nginx plain (timer (pos (10 ^ 8)) ∷ change (pos (5 * 10 ^ 8)) ∷ [])
      idle_loop (pos 0) (pos (3 * 10 ^ 9)) (start two_pods) in_time quiet_then
