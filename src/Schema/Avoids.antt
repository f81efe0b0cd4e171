-- ===== src/Schema/Avoids.antt =====
-- internal/schema/schema.go: the fields of pods and deployments beside those of a node's capacity.
use orchestration.Prelude.{ℕ, ◌≡◌, false, [], ◌∷◌, Bool-cases, inl, inr, ◌==◌}
use orchestration.Prelude.Int.{ℤ, pos, eq_ℤ}
use orchestration.Prelude.Text.{Str}
use orchestration.Redis.{Redis, Hash}
use orchestration.Capacity.Safe.{Avoids, is_capacity_field}
use orchestration.Schema.Codec.{
  DeploymentSpec, PodSpec, text_entry, int_entry, nat_entry, deployment_to_map, pod_to_map,
}

module _ (r : Redis) where
  text_entry-Avoids :
      (f s : Str) (h : Hash)
      → is_capacity_field r f ≡ false
      → Avoids r h
      → Avoids r (text_entry f s h)
  unfolding text_entry
  text_entry-Avoids f [] h a k = k
  text_entry-Avoids f (c ∷ s) h a k = (a, k)

  int_entry-Avoids :
      (f : Str) (z : ℤ) (h : Hash)
      → is_capacity_field r f ≡ false
      → Avoids r h
      → Avoids r (int_entry f z h)
  unfolding int_entry
  int_entry-Avoids f z h a k = elim (Bool-cases (eq_ℤ z (pos 0))) [
    | inl e ↦ rw e k
    | inr e ↦ rw e (a, k)
  ]

  nat_entry-Avoids :
      (f : Str) (n : ℕ) (h : Hash)
      → is_capacity_field r f ≡ false
      → Avoids r h
      → Avoids r (nat_entry f n h)
  unfolding nat_entry
  nat_entry-Avoids f n h a k = elim (Bool-cases (n == 0)) [ inl e ↦ rw e k | inr e ↦ rw e (a, k) ]

  pub deployment_to_map-Avoids : (d : DeploymentSpec) → Avoids r (deployment_to_map d)
  unfolding deployment_to_map
  deployment_to_map-Avoids d = search text_entry-Avoids depth 30

  pub pod_to_map-Avoids : (p : PodSpec) → Avoids r (pod_to_map p)
  unfolding pod_to_map
  pod_to_map-Avoids p = search (text_entry-Avoids, int_entry-Avoids, nat_entry-Avoids) depth 30
