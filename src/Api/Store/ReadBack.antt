-- ===== src/Api/Store/ReadBack.antt =====
-- internal/api/store.go and internal/schema/schema.go: a deployment's hash after it was written.
use orchestration.Prelude.{
  ◌≡◌, refl, ap, ◌∙◌, Option, none, some, List, [], ◌∷◌, if◌then◌else◌, All,
}
use orchestration.Prelude.Text.{Str, str_eq, str_eq_refl}
use orchestration.Redis.{Redis, RedisLaws, Hash, hget, hset_all, field?}
use orchestration.Client.{ok}
use orchestration.Schema.Fields.{
  field_deployment_name, field_min_replicas, field_max_replicas, field_cpu_request,
  field_mem_request, field_desired_replicas, field_created_at, field_last_scale_up_at,
  field_last_scale_down_at, field_target_cpu_percent, field_exec_path, field_port,
}
use orchestration.Schema.Codec.{
  DeploymentSpec, text_at, or_empty, text_entry, deployment_to_map, map_to_deployment,
}
use orchestration.Schema.RoundTrip.{IsDeployment, map_to_deployment-deployment_to_map}

-- The value that a field has at the end, where the writes of `h` follow `old`.
abbrev written : Hash → Str → Option Str → Option Str
written [] f old = old
written ((g, v) ∷ h) f old = written h f (if str_eq g f then some v else old)

-- The hash of a deployment, with its optional times apart.
abbrev entries : DeploymentSpec → Str → Str → Hash
entries d up down =
    deployment_to_map (record d { last_scale_up_at = up; last_scale_down_at = down })

abbrev deployment_fields : List Str
deployment_fields =
    field_deployment_name ∷ field_min_replicas ∷ field_max_replicas ∷ field_cpu_request
    ∷ field_mem_request ∷ field_desired_replicas ∷ field_target_cpu_percent ∷ field_exec_path
    ∷ field_port ∷ field_created_at ∷ field_last_scale_up_at ∷ field_last_scale_down_at ∷ []

-- The two hashes read alike in every field of a deployment.
abbrev Alike : Hash → Hash → Type 0
Alike h h' = All (λ f. text_at h f ≡ text_at h' f) deployment_fields

map_to_deployment-Alike : (h h' : Hash) → Alike h h' → map_to_deployment h ≡ map_to_deployment h'
unfolding map_to_deployment
map_to_deployment-Alike h h' (a, (b, (c, (d, (e, (f, (g, (i, (j, (k, (l, (m, u)))))))))))) =
    rw (a, b, c, d, e, f, g, i, j, k, l, m)

-- A time that is not written was not there.
abbrev pub Fresh : Option Str → Str → Type 0
Fresh old [] = old ≡ none
Fresh old (c ∷ s) = Unit {0}

abbrev Reads : DeploymentSpec → (Str → Option Str) → Str → Str → Type 0
Reads d old up down =
    All
      (λ f.
        or_empty (written (entries d up down) f (old f)) ≡ or_empty (field? f (entries d up down)))
      deployment_fields

written-Reads :
    (d : DeploymentSpec) (old : Str → Option Str) (up down : Str)
    → Fresh (old field_last_scale_up_at) up
    → Fresh (old field_last_scale_down_at) down
    → Reads d old up down
unfolding deployment_to_map text_entry
written-Reads d old [] [] p q = (
  refl,
  (
    refl,
    (
      refl,
      (refl, (refl, (refl, (refl, (refl, (refl, (refl, (ap or_empty p, (ap or_empty q, tt))))))))),
    ),
  ),
)
written-Reads d old [] (c ∷ s) p q = (
  refl,
  (
    refl,
    (refl, (refl, (refl, (refl, (refl, (refl, (refl, (refl, (ap or_empty p, (refl, tt)))))))))),
  ),
)
written-Reads d old (b ∷ t) [] p q = (
  refl,
  (
    refl,
    (refl, (refl, (refl, (refl, (refl, (refl, (refl, (refl, (refl, (ap or_empty q, tt)))))))))),
  ),
)
written-Reads d old (b ∷ t) (c ∷ s) p q = (
  refl,
  (refl, (refl, (refl, (refl, (refl, (refl, (refl, (refl, (refl, (refl, (refl, tt))))))))))),
)

module _ (r : Redis) (laws : RedisLaws r) where
  -- A field of a hash after the fields of h were set.
  hget-hset_all :
      (db : r.Db) (key f : Str) (h : Hash)
      → hget r (hset_all r db key h) key f ≡ written h f (hget r db key f)
  hget-hset_all db key f [] = refl
  hget-hset_all db key f ((g, v) ∷ h) =
      hget-hset_all (r.hset db key g v) key f h
      ∙ ap (written h f) (laws.hget-hset db key g v key f ∙ rw (str_eq_refl key))

  hset_all-Alike :
      (db : r.Db) (key : Str) (h : Hash) (fields : List Str)
      → All (λ f. or_empty (written h f (hget r db key f)) ≡ text_at h f) fields
      → All (λ f. text_at (r.hgetall (hset_all r db key h) key) f ≡ text_at h f) fields
  hset_all-Alike db key h [] a = tt
  hset_all-Alike db key h (f ∷ fields) (p, a) =
      (ap or_empty (hget-hset_all db key f h) ∙ p, hset_all-Alike db key h fields a)

  -- A deployment that is written to its hash by HashSet and read with HashGet is the deployment
  -- again, whatever other fields the hash had, where its numbers are 64-bit integers and a scaling
  -- time that it does not have was not in the hash before.
  pub map_to_deployment-hset_all :
      (db : r.Db) (key : Str) (d : DeploymentSpec)
      → Fresh (hget r db key field_last_scale_up_at) d.last_scale_up_at
      → Fresh (hget r db key field_last_scale_down_at) d.last_scale_down_at
      → IsDeployment d
      → map_to_deployment (r.hgetall (hset_all r db key (deployment_to_map d)) key) ≡ ok d
  map_to_deployment-hset_all db key d p q v =
      map_to_deployment-Alike _ _ (
        hset_all-Alike db key (deployment_to_map d) deployment_fields
          (written-Reads d (hget r db key) d.last_scale_up_at d.last_scale_down_at p q))
      ∙ map_to_deployment-deployment_to_map d v
