-- ===== src/Api/Store/Bounds.antt =====
-- internal/api/store.go: the bounds of a stored deployment.
use orchestration.Prelude.{◌≡◌, ◌∙◌, refl, Option, none, some, arith}
use orchestration.Prelude.Int.{ℤ, pos, ◌≤ℤ◌}
use orchestration.Redis.{Redis}
use orchestration.Client.{ok, Env}
use orchestration.Client.Returns.{Returns, Returns-pure, Returns-bind, Returns-Any, Any}
use orchestration.Schema.Codec.{DeploymentSpec}
use orchestration.Api.Validate.{DeploymentRequest, trim_space}
use orchestration.Api.Validate.Accepts.{IsValid, Within, Ordered}
use orchestration.Api.Store.{clamp, requested, merged, usable, apply, write_deployment}

-- In an interval that is not empty, clamping lands inside, and leaves what is inside alone.
pub clamp_lem :
    (v min max : ℤ)
    → min ≤ℤ max
    → (min ≤ℤ clamp v min max)
      × (clamp v min max ≤ℤ max)
      × (min ≤ℤ v → v ≤ℤ max → clamp v min max ≡ v)
unfolding clamp
clamp_lem v min max h = ground arith

-- What a spec must be for the controllers: a minimum of at least one, and the desired count between
-- the two bounds.
abbrev pub InBounds : DeploymentSpec → Type 0
InBounds dep =
    (pos 1 ≤ℤ dep.min_replicas)
    × (dep.min_replicas ≤ℤ dep.desired_replicas)
    × (dep.desired_replicas ≤ℤ dep.max_replicas)

abbrev value : Option ℤ → ℤ
value none = pos 0
value (some z) = z

-- The numbers of a valid request are all there, and the two replica counts are ordered.
pub requested-IsValid :
    (req : DeploymentRequest)
    → IsValid req
    → (dep : DeploymentSpec) × (requested req ≡ ok dep)
      × (pos 1 ≤ℤ dep.min_replicas)
      × (dep.min_replicas ≤ℤ dep.max_replicas)
      × (dep.desired_replicas ≡ dep.min_replicas)
      × (dep.name ≡ trim_space req.name)
unfolding requested
requested-IsValid req v =
    found (req.min_replicas) (req.max_replicas) (req.target_cpu_percent) (req.cpu_request)
      (req.mem_request) (req.port) v.min_replicas v.max_replicas v.ordered v.target v.cpu v.mem
      v.port
  where
    found :
        (a b c d e f : Option ℤ)
        → Within a (pos 1) (pos 100)
        → Within b (pos 1) (pos 100)
        → Ordered a b
        → Within c (pos 1) (pos 100)
        → Within d (pos 1) (pos 8000)
        → Within e (pos 1) (pos 65536)
        → Within f (pos 1) (pos 65535)
        → (dep : DeploymentSpec) × (requested (record {
          name = req.name;
          min_replicas = a;
          max_replicas = b;
          target_cpu_percent = c;
          cpu_request = d;
          mem_request = e;
          exec_path = req.exec_path;
          port = f;
        })
            ≡ ok dep)
          × (pos 1 ≤ℤ dep.min_replicas)
          × (dep.min_replicas ≤ℤ dep.max_replicas)
          × (dep.desired_replicas ≡ dep.min_replicas)
          × (dep.name ≡ trim_space req.name)
    found none b c d e f ha hb o hc hd he hf = absurd ha
    found (some a) none c d e f ha hb o hc hd he hf = absurd hb
    found (some a) (some b) none d e f ha hb o hc hd he hf = absurd hc
    found (some a) (some b) (some c) none e f ha hb o hc hd he hf = absurd hd
    found (some a) (some b) (some c) (some d) none f ha hb o hc hd he hf = absurd he
    found (some a) (some b) (some c) (some d) (some e) none ha hb o hc hd he hf = absurd hf
    found (some a) (some b) (some c) (some d) (some e) (some f) ha hb o hc hd he hf =
        (_, refl, ha.0, o, refl, refl)

merged-InBounds :
    (dep : DeploymentSpec) (old : Option DeploymentSpec) (at_time : ℤ)
    → pos 1 ≤ℤ dep.min_replicas
    → dep.min_replicas ≤ℤ dep.max_replicas
    → dep.desired_replicas ≡ dep.min_replicas
    → InBounds (merged dep old at_time)
unfolding merged
merged-InBounds dep none at_time h k e = (h, rw e (omega arith), rw e k)
merged-InBounds dep (some old) at_time h k e =
    let c = clamp_lem old.desired_replicas dep.min_replicas dep.max_replicas k in (h, c.0, c.1)

pub merged-name :
    (dep : DeploymentSpec) (old : Option DeploymentSpec) (at_time : ℤ)
    → (merged dep old at_time).name ≡ dep.name
unfolding merged
merged-name dep none at_time = refl
merged-name dep (some old) at_time = refl

module _ {r : Redis} (e : Env r) where
  -- Whatever was stored before and whatever fails, an apply of a valid request that returns a spec
  -- returns one of the request's name, with a minimum of at least one and a desired count between
  -- its bounds.
  pub apply-InBounds :
      (req : DeploymentRequest)
      → IsValid req
      → Returns (λ x. InBounds x.0 × (x.0.name ≡ trim_space req.name)) (apply e req)
  unfolding apply write_deployment
  apply-InBounds req v =
      let (dep, same, h, k, p, n) = requested-IsValid req v in
      Returns-bind Any _ _ (Returns-Any _) λ read _.
        Returns-bind Any _ _ (Returns-Any _) λ at_time _. rw same (
          Returns-bind Any _ _ (Returns-Any _) λ _ _. Returns-pure _ (
            merged-InBounds dep (usable read) at_time h k p,
            merged-name dep (usable read) at_time ∙ n,
          ))
