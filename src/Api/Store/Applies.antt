-- ===== src/Api/Store/Applies.antt =====
-- internal/api/store.go: what Apply writes and returns, field by field.
use orchestration.Prelude.{suc, ◌≡◌, refl, Bool, true, false, Option, none, some, [], ◌∷◌, arith}
use orchestration.Prelude.Int.{ℤ, pos, ◌≤ℤ◌, ◌<ℤ◌}
use orchestration.Prelude.Decimal.{format_int}
use orchestration.Redis.{Redis, Hash, hset_all}
use orchestration.Schema.Keys.{deployment_key}
use orchestration.Client.{
  Result, ok, err, unreachable, fail, handle, Error, Fault, healthy, lost, unanswered, Env, World,
  hash_get, hash_set, call, now, ◌>>=◌, pure,
}
use orchestration.Client.Returns.{
  Returns, Returns-pure, Returns-fail, Returns-bind, Returns-Any, Any,
}
use orchestration.Schema.Codec.{DeploymentSpec, map_to_deployment, deployment_to_map}
use orchestration.Api.Validate.{DeploymentRequest, trim_space}
use orchestration.Api.Validate.Accepts.{IsValid, Within, Ordered}
use orchestration.Api.Store.{
  clamp, requested, merged, usable, existed, stored, get, apply, write_deployment,
}
use orchestration.Api.Store.Bounds.{merged-name}

-- The deployment that a hash held: none where it was missing or could not be read.
abbrev pub Held : Hash → Option DeploymentSpec → Type 0
Held [] old = old ≡ none
Held (f ∷ h) none = (c : Error) × (map_to_deployment (f ∷ h) ≡ err c)
Held (f ∷ h) (some old) = map_to_deployment (f ∷ h) ≡ ok old

-- What the request asks for is in the spec.
pub record Spells (req : DeploymentRequest) (dep : DeploymentSpec) : Type 0 where
  pub name : dep.name ≡ trim_space req.name
  pub min_replicas : req.min_replicas ≡ some dep.min_replicas
  pub max_replicas : req.max_replicas ≡ some dep.max_replicas
  pub target : req.target_cpu_percent ≡ some dep.target_cpu_percent
  pub cpu : req.cpu_request ≡ some dep.cpu_request
  pub mem : req.mem_request ≡ some dep.mem_request
  pub port : req.port ≡ some dep.port
  pub exec_path : dep.exec_path ≡ trim_space req.exec_path

-- The nearest of the numbers between two bounds.
pub record IsNearest (v min max z : ℤ) : Type 0 where
  pub inside : min ≤ℤ v → v ≤ℤ max → z ≡ v
  pub below : v <ℤ min → z ≡ min
  pub above : max <ℤ v → z ≡ max

-- The times and the desired count of a spec that is written over what was there, and whether that
-- was a deployment.
abbrev pub Continues : Option DeploymentSpec → ℤ → DeploymentSpec → Bool → Type 0
Continues none at_time dep there =
    (there ≡ false)
    × (dep.created_at ≡ format_int at_time)
    × (dep.last_scale_up_at ≡ [])
    × (dep.last_scale_down_at ≡ [])
    × (dep.desired_replicas ≡ dep.min_replicas)
Continues (some old) at_time dep there =
    (there ≡ true)
    × (dep.created_at ≡ old.created_at)
    × (dep.last_scale_up_at ≡ old.last_scale_up_at)
    × (dep.last_scale_down_at ≡ old.last_scale_down_at)
    × IsNearest old.desired_replicas dep.min_replicas dep.max_replicas dep.desired_replicas

clamp-IsNearest : (v min max : ℤ) → min ≤ℤ max → IsNearest v min max (clamp v min max)
unfolding clamp
clamp-IsNearest v min max h = record {
  inside = λ a b. ground arith;
  below = λ a. ground arith;
  above = λ a. ground arith;
}

usable-Held : (h : Hash) → Held h (usable (stored h))
unfolding usable stored
usable-Held [] = refl
usable-Held (f ∷ h) = found (map_to_deployment (f ∷ h)) refl
  where
    found :
        (x : Result DeploymentSpec)
        → map_to_deployment (f ∷ h) ≡ x
        → Held (f ∷ h) (usable (some (map_to_deployment (f ∷ h))))
    found (ok dep) p = rw p p
    found (err c) p = rw p (c, p)

-- The numbers of a valid request are what its spec is made of.
requested-Spells :
    (req : DeploymentRequest)
    → IsValid req
    → (dep : DeploymentSpec) × (requested req ≡ ok dep)
      × Spells req dep
      × (dep.desired_replicas ≡ dep.min_replicas)
      × (dep.min_replicas ≤ℤ dep.max_replicas)
      × (dep.last_scale_up_at ≡ [])
      × (dep.last_scale_down_at ≡ [])
unfolding requested
requested-Spells req v =
    found (req.min_replicas) (req.max_replicas) (req.target_cpu_percent) (req.cpu_request)
      (req.mem_request) (req.port) v.min_replicas v.max_replicas v.ordered v.target v.cpu v.mem
      v.port
  where
    found :
        (a b c d e f : Option ℤ)
        → Within a (pos 1) (pos 100)
        → Within b (pos 1) (pos 100)
        → Ordered a b
        → Within c (pos 1) (pos 100)
        → Within d (pos 1) (pos 8000)
        → Within e (pos 1) (pos 65536)
        → Within f (pos 1) (pos 65535)
        → let req' = record req {
          min_replicas = a;
          max_replicas = b;
          target_cpu_percent = c;
          cpu_request = d;
          mem_request = e;
          port = f;
        } in
          (dep : DeploymentSpec) × (requested req' ≡ ok dep)
          × Spells req' dep
          × (dep.desired_replicas ≡ dep.min_replicas)
          × (dep.min_replicas ≤ℤ dep.max_replicas)
          × (dep.last_scale_up_at ≡ [])
          × (dep.last_scale_down_at ≡ [])
    found none b c d e f ha hb o hc hd he hf = absurd ha
    found (some a) none c d e f ha hb o hc hd he hf = absurd hb
    found (some a) (some b) none d e f ha hb o hc hd he hf = absurd hc
    found (some a) (some b) (some c) none e f ha hb o hc hd he hf = absurd hd
    found (some a) (some b) (some c) (some d) none f ha hb o hc hd he hf = absurd he
    found (some a) (some b) (some c) (some d) (some e) none ha hb o hc hd he hf = absurd hf
    found (some a) (some b) (some c) (some d) (some e) (some f) ha hb o hc hd he hf = (
      _,
      refl,
      record {
        name = refl;
        min_replicas = refl;
        max_replicas = refl;
        target = refl;
        cpu = refl;
        mem = refl;
        port = refl;
        exec_path = refl;
      },
      refl,
      o,
      refl,
      refl,
    )

merged-Spells :
    (req : DeploymentRequest) (dep : DeploymentSpec) (old : Option DeploymentSpec) (at_time : ℤ)
    → Spells req dep
    → Spells req (merged dep old at_time)
unfolding merged
merged-Spells req dep none at_time s = record {
  name = s.name;
  min_replicas = s.min_replicas;
  max_replicas = s.max_replicas;
  target = s.target;
  cpu = s.cpu;
  mem = s.mem;
  port = s.port;
  exec_path = s.exec_path;
}
merged-Spells req dep (some old) at_time s = record {
  name = s.name;
  min_replicas = s.min_replicas;
  max_replicas = s.max_replicas;
  target = s.target;
  cpu = s.cpu;
  mem = s.mem;
  port = s.port;
  exec_path = s.exec_path;
}

merged-Continues :
    (dep : DeploymentSpec) (old : Option DeploymentSpec) (at_time : ℤ)
    → dep.desired_replicas ≡ dep.min_replicas
    → dep.min_replicas ≤ℤ dep.max_replicas
    → dep.last_scale_up_at ≡ []
    → dep.last_scale_down_at ≡ []
    → Continues old at_time (merged dep old at_time) (existed old)
unfolding merged
merged-Continues dep none at_time d o up down = (refl, refl, up, down, d)
merged-Continues dep (some old) at_time d o up down =
    (refl, refl, refl, refl, clamp-IsNearest old.desired_replicas _ _ o)

module _ {r : Redis} (e : Env r) where
  -- When both of its calls reach the server, an apply of a valid request writes one deployment hash,
  -- that of the request's name, and returns what it wrote and whether the hash that it had read
  -- spelled a deployment. What it writes has the request's numbers and path; of a deployment that
  -- was there it has the times, and the desired count brought to the nearest number within the
  -- request's bounds; of a new one it has the time now, no time of scaling, and the minimum.
  pub apply_lem :
      (req : DeploymentRequest) (w : World r)
      → IsValid req
      → e.fault w.tick ≡ healthy
      → e.fault (suc w.tick) ≡ healthy
      → let key = deployment_key (trim_space req.name) in
        let first = e.others w.tick w.db in
        let second = e.others (suc w.tick) first in
        (old : Option DeploymentSpec) × (dep : DeploymentSpec) × (there : Bool) × Held
          (r.hgetall first key)
          old
        × Spells req dep
        × Continues old (e.unix (suc w.tick)) dep there
        × (apply e req w ≡ (
          ok (dep, there),
          record w { db = hset_all r second key (deployment_to_map dep); tick = suc (suc w.tick) },
        ))
  unfolding apply write_deployment get hash_get hash_set call now ◌>>=◌ pure
  apply_lem req w v f g =
      let fields = r.hgetall (e.others w.tick w.db) (deployment_key (trim_space req.name)) in
      let old = usable (stored fields) in
      let at_time = e.unix (suc w.tick) in
      let (dep, same, s, d, o, up, down) = requested-Spells req v in
      (
        old,
        merged dep old at_time,
        existed old,
        usable-Held fields,
        merged-Spells req dep old at_time s,
        merged-Continues dep old at_time d o up down,
        rw (f, same, g) (rw (merged-name dep old at_time, s.name)),
      )

  written-existed :
      (x : Result DeploymentSpec) (old : Option DeploymentSpec) (at_time : ℤ)
      → Returns
          (λ y. y.1 ≡ existed old)
          (handle x
            (λ dep. write_deployment e (merged dep old at_time) (existed old))
            (λ cause. fail cause))
  unfolding write_deployment
  written-existed (err c) old at_time = Returns-fail c
  written-existed (ok dep) old at_time =
      Returns-bind Any _ _ (Returns-Any _) (λ _ _. Returns-pure _ refl)

  -- The first call of an apply that returns has read a hash, and what it tells of the deployment
  -- being there is what that hash says.
  pub apply-Held :
      (req : DeploymentRequest) (dep : DeploymentSpec) (there : Bool) (w : World r)
      → (apply e req w).0 ≡ ok (dep, there)
      → (old : Option DeploymentSpec) × Held
          (r.hgetall (e.others w.tick w.db) (deployment_key (trim_space req.name)))
          old
        × (there ≡ existed old)
  unfolding apply write_deployment get hash_get call now ◌>>=◌ pure
  apply-Held req dep there w p =
      (usable (stored fields), usable-Held fields, read (e.fault w.tick) refl)
    where
      fields : Hash
      fields = r.hgetall (e.others w.tick w.db) (deployment_key (trim_space req.name))

      failed :
          ◌≡◌ {A = Result (DeploymentSpec × Bool)} (err unreachable) (ok (dep, there))
          → there ≡ existed (usable (stored fields))
      failed p = cc

      read : (f : Fault) → e.fault w.tick ≡ f → there ≡ existed (usable (stored fields))
      read healthy q =
          (written-existed (requested req) (usable (stored fields)) _).at _ (dep, there) (rw q at p)
      read lost q = failed (rw q at p)
      read unanswered q = failed (rw q at p)
