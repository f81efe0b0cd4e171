-- ===== src/Schema/KeyLaws.antt =====
-- internal/schema/schema.go: the keys of pods, apart.
use orchestration.Prelude.{◌≡◌, refl, ap, false, [], ◌∷◌, ◌++◌, arith}
use orchestration.Prelude.Text.{Str, codes, contains, strip}
use orchestration.Schema.Keys.{pod_key}

-- A text without colons ends at the first colon that follows it.
split_at_colon :
    (s t u v : Str)
    → contains b':' s ≡ false
    → contains b':' t ≡ false
    → s ++ b':' ∷ u ≡ t ++ b':' ∷ v
    → (s ≡ t) × (u ≡ v)
unfolding contains
split_at_colon [] [] u v a b h = (refl, cc)
split_at_colon [] (d ∷ t) u v a b h = ground (arith, h)
split_at_colon (c ∷ s) [] u v a b h = ground (arith, h)
split_at_colon (c ∷ s) (d ∷ t) u v a b h =
    let ih =
      split_at_colon s t u v (ground arith) (ground arith)
        (tails (s ++ b':' ∷ u) (t ++ b':' ∷ v) h) in
    (heads (s ++ b':' ∷ u) (t ++ b':' ∷ v) h ih.0, ih.1)
  where
    tails : (x y : Str) → c ∷ x ≡ d ∷ y → x ≡ y
    tails x y h = cc

    heads : (x y : Str) → c ∷ x ≡ d ∷ y → s ≡ t → c ∷ s ≡ d ∷ t
    heads x y h e = cc

-- Two pods of deployments whose names hold no colon have the same key only if they are the same.
pub pod_key_injective :
    (deployment pod_id deployment' pod_id' : Str)
    → contains b':' deployment ≡ false
    → contains b':' deployment' ≡ false
    → pod_key deployment pod_id ≡ pod_key deployment' pod_id'
    → (deployment ≡ deployment') × (pod_id ≡ pod_id')
unfolding pod_key strip
pod_key_injective d p d' p' a b h =
    split_at_colon d d' p p' a b (ap (λ s. strip s (codes "pod:")) h)
