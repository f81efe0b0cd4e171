-- ===== src/Api/Store.antt =====
-- internal/api/store.go: the deployments in Redis. A request's numbers are pointers in Go; an absent
-- one is dereferenced with a panic, which the model returns as an error.
pub mod Bounds
pub mod Applies
pub mod Reads
pub mod ReadBack
use orchestration.Prelude.{
  ℕ, ◌≡◌, Bool, true, false, not, Option, none, some, List, [], ◌∷◌, ◌++◌, if◌then◌else◌,
}
use orchestration.Prelude.Int.{ℤ, pos, ltb_ℤ}
use orchestration.Prelude.Text.{Str, codes, str_lt, trim_prefix}
use orchestration.Prelude.Decimal.{format_int}
use orchestration.Prelude.Sort.{sort_by}
use orchestration.Redis.{Redis, Hash}
use orchestration.Client.{
  Error, Result, ok, err, not_found, panicked, Env, Client, pure, fail, try, handle, collect, ◌>>=◌,
  ◌>>◌, hash_get, hash_set, scan_keys, now,
}
use orchestration.Schema.Keys.{deployment_key, deployment_key_pattern}
use orchestration.Schema.Fields.{field_desired_replicas}
use orchestration.Schema.Codec.{DeploymentSpec, map_to_deployment, deployment_to_map}
use orchestration.Api.Validate.{DeploymentRequest, trim_space}

-- v in the inclusive range from min to max
unfoldable pub clamp : ℤ → ℤ → ℤ → ℤ
clamp v min max = if ltb_ℤ v min then min else if ltb_ℤ max v then max else v

-- What Get says of a deployment that could be read: absent, malformed, or a spec.
unfoldable pub stored : Hash → Option (Result DeploymentSpec)
stored [] = none
stored (f ∷ fields) = some (map_to_deployment (f ∷ fields))

-- What an apply keeps of the deployment that was there.
unfoldable pub usable : Option (Result DeploymentSpec) → Option DeploymentSpec
usable none = none
usable (some (err _)) = none
usable (some (ok dep)) = some dep

abbrev pub existed : Option DeploymentSpec → Bool
existed none = false
existed (some dep) = true

abbrev pub dereferenced {ℓ} : {A : Type ℓ} → Option ℤ → (ℤ → Result A) → Result A
dereferenced none f = err panicked
dereferenced (some z) f = f z

-- The spec that the request spells, with desired_replicas at its minimum.
unfoldable pub requested : DeploymentRequest → Result DeploymentSpec
requested req = dereferenced (req.min_replicas) λ min_replicas.
    dereferenced (req.max_replicas) λ max_replicas. dereferenced (req.target_cpu_percent) λ target.
      dereferenced (req.cpu_request) λ cpu. dereferenced (req.mem_request) λ mem.
        dereferenced (req.port) λ port. ok (record {
          name = trim_space req.name;
          min_replicas = min_replicas;
          max_replicas = max_replicas;
          cpu_request = cpu;
          mem_request = mem;
          desired_replicas = min_replicas;
          target_cpu_percent = target;
          exec_path = trim_space req.exec_path;
          port = port;
          created_at = [];
          last_scale_up_at = [];
          last_scale_down_at = [];
        })

-- On update the desired count stays, within the new bounds; so do the times.
unfoldable pub merged : DeploymentSpec → Option DeploymentSpec → ℤ → DeploymentSpec
merged dep none created_at = record dep { created_at = format_int created_at }
merged dep (some old) created_at = record dep {
  created_at = old.created_at;
  last_scale_up_at = old.last_scale_up_at;
  last_scale_down_at = old.last_scale_down_at;
  desired_replicas = clamp old.desired_replicas dep.min_replicas dep.max_replicas;
}

module _ {r : Redis} (e : Env r) where
  unfoldable pub get : Str → Client r (Option (Result DeploymentSpec))
  unfolding stored
  get name = do fields ← hash_get e (deployment_key name); pure (stored fields)

  -- One unreadable deployment is left out of the listing.
  listed : Str → Client r (List DeploymentSpec)
  listed key = do
    found ← try (get (trim_prefix key (codes "deployment:")))
    handle found (λ read. elim (usable read) [ none ↦ pure [] | some dep ↦ pure (dep ∷ []) ])
        (λ _. pure [])

  -- Deployments of one name, which Go may sort either way, stay in the order of their keys.
  unfoldable pub list : Client r (List DeploymentSpec)
  unfolding listed
  list = do
    keys ← scan_keys e deployment_key_pattern
    deployments ← collect listed keys
    pure (sort_by (λ a b. str_lt a.name b.name) deployments)

  write_deployment : DeploymentSpec → Bool → Client r (DeploymentSpec × Bool)
  write_deployment dep there = do
    hash_set e (deployment_key dep.name) (deployment_to_map dep)
    pure (dep, there)

  -- The spec that was written, and whether the deployment existed.
  unfoldable pub apply : DeploymentRequest → Client r (DeploymentSpec × Bool)
  unfolding write_deployment
  apply req = do
    read ← get (trim_space req.name)
    created_at ← now e
    handle (requested req)
        (λ dep. write_deployment (merged dep (usable read) created_at) (existed (usable read)))
        (λ cause. fail cause)

  set_desired : Str → ℤ → DeploymentSpec → Client r DeploymentSpec
  set_desired name desired dep = do
    let count = clamp desired dep.min_replicas dep.max_replicas
    hash_set e (deployment_key name) ((field_desired_replicas, format_int count) ∷ [])
    pure (record dep { desired_replicas = count })

  set_desired_read : Str → ℤ → Option (Result DeploymentSpec) → Client r DeploymentSpec
  unfolding set_desired
  set_desired_read name desired none = fail not_found
  set_desired_read name desired (some read) =
      handle read (set_desired name desired) (λ cause. fail cause)

  unfoldable pub set_desired_replicas : Str → ℤ → Client r DeploymentSpec
  unfolding set_desired_read
  set_desired_replicas name desired = do read ← get name; set_desired_read name desired read
