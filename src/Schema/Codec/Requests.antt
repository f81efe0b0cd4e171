-- ===== src/Schema/Codec/Requests.antt =====
-- internal/schema/schema.go: the requests that a pod or a deployment reads back from its hash.
use orchestration.Prelude.{◌≡◌, refl, ap, ◌∙◌}
use orchestration.Redis.{Hash}
use orchestration.Client.{Result, ok, err}
use orchestration.Schema.Fields.{
  field_min_replicas, field_max_replicas, field_desired_replicas, field_cpu_request,
  field_mem_request,
}
use orchestration.Schema.Codec.{
  DeploymentSpec, PodSpec, map_to_pod, map_to_deployment, atoi, text_at, ◌>>=◌,
}

bind_inv :
    {A B : Type 0} (x : Result A) (f : A → Result B) (b : B)
    → (x >>= f) ≡ ok b
    → (a : A) × (x ≡ ok a) × (f a ≡ ok b)
bind_inv (ok a) f b h = (a, refl, h)
bind_inv (err c) f b h = cc

ok_inj : {A : Type 0} → (a b : A) → ok a ≡ ok b → a ≡ b
ok_inj a b h = cc

pub map_to_pod-requests :
    (m : Hash) (p : PodSpec)
    → map_to_pod m ≡ ok p
    → (atoi (text_at m field_cpu_request) ≡ ok p.cpu_request)
      × (atoi (text_at m field_mem_request) ≡ ok p.mem_request)
unfolding map_to_pod
map_to_pod-requests m p h =
    let (c, ec, h') = bind_inv _ _ p h in
    let (d, ed, h'') = bind_inv _ _ p h' in
    (
      ec ∙ ap (λ (q : PodSpec). ok q.cpu_request) (ok_inj _ p h''),
      ed ∙ ap (λ (q : PodSpec). ok q.mem_request) (ok_inj _ p h''),
    )

pub map_to_deployment-requests :
    (m : Hash) (d : DeploymentSpec)
    → map_to_deployment m ≡ ok d
    → (atoi (text_at m field_cpu_request) ≡ ok d.cpu_request)
      × (atoi (text_at m field_mem_request) ≡ ok d.mem_request)
unfolding map_to_deployment
map_to_deployment-requests m d h =
    let (a1, e1, h1) = bind_inv (atoi (text_at m field_min_replicas)) _ d h in
    let (a2, e2, h2) = bind_inv (atoi (text_at m field_max_replicas)) _ d h1 in
    let (c, ec, h3) = bind_inv (atoi (text_at m field_cpu_request)) _ d h2 in
    let (n, en, h4) = bind_inv (atoi (text_at m field_mem_request)) _ d h3 in
    let (a5, e5, h5) = bind_inv (atoi (text_at m field_desired_replicas)) _ d h4 in
    (
      ec ∙ ap (λ (q : DeploymentSpec). ok q.cpu_request) (ok_inj _ d h5),
      en ∙ ap (λ (q : DeploymentSpec). ok q.mem_request) (ok_inj _ d h5),
    )
