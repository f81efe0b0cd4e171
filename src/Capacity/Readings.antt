-- ===== src/Capacity/Readings.antt =====
-- internal/capacity/capacity.go: what is read while the invariant of `Capacity.Sane` holds.
use orchestration.Prelude.{◌≡◌}
use orchestration.Prelude.Text.{Str}
use orchestration.Redis.{Redis, Hash}
use orchestration.Client.{ok, Env, hash_get}
use orchestration.Client.Keeps.{Stable}
use orchestration.Client.Gives.{Gives, Gives-call}
use orchestration.Capacity.Sane.{IsRequest, IsSane, map_to_pod-IsSane, map_to_deployment-IsSane}
use orchestration.Schema.Codec.{DeploymentSpec, PodSpec, map_to_pod, map_to_deployment}

abbrev pub PodFine : PodSpec → Type 0
PodFine p = IsRequest p.cpu_request × IsRequest p.mem_request

-- The pod or the deployment that a hash holds has requests.
pub record HashFine (h : Hash) : Type 0 where
  pub pod : (p : PodSpec) → map_to_pod h ≡ ok p → PodFine p
  pub deployment :
      (d : DeploymentSpec)
      → map_to_deployment h ≡ ok d
      → IsRequest d.cpu_request × IsRequest d.mem_request

pub Gives-hash_get :
    {r : Redis} (e : Env r) (st : Stable e (IsSane r)) (key : Str)
    → Gives (IsSane r) HashFine (hash_get e key)
unfolding hash_get
Gives-hash_get {r} e st key = Gives-call e _ st λ db h. record {
  pod = λ p eq. map_to_pod-IsSane r db key p h eq;
  deployment = λ d eq. map_to_deployment-IsSane r db key d h eq;
}
