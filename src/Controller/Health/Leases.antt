-- ===== src/Controller/Health/Leases.antt =====
-- internal/controller/health.go: the node that a lease key names.
use orchestration.Prelude.{
  ℕ, ◌≡◌, refl, sym, ap, ◌∙◌, Bool, true, false, not, ◌||◌, Option, none, some, [], ◌∷◌, ◌++◌,
  if◌then◌else◌, reverse, Bool-cases, ◌⊎◌, inl, inr, arith,
}
use mathlib.Core.List.{reverse-append, reverse-reverse, reverse-cons}
use orchestration.Prelude.Text.{
  Str, codes, str_eq, has_prefix, has_suffix, trim_prefix, trim_suffix, contains, has_prefix-append,
  strip-append, append-strip,
}
use orchestration.Schema.Keys.{node_status_key}
use orchestration.Controller.Health.{node_id_from_status_key}

-- Suffixes, from the facts on prefixes.
has_suffix-append : (s p : Str) → has_suffix (s ++ p) p ≡ true
unfolding has_suffix
has_suffix-append s p = rw (reverse-append s p) (has_prefix-append (reverse p) (reverse s))

trim_prefix-append : (p s : Str) → trim_prefix (p ++ s) p ≡ s
unfolding trim_prefix
trim_prefix-append p s = rw (has_prefix-append p s) (strip-append p s)

trim_suffix-append : (s p : Str) → trim_suffix (s ++ p) p ≡ s
unfolding trim_suffix
trim_suffix-append s p =
    rw (reverse-append s p, trim_prefix-append (reverse p) (reverse s)) (reverse-reverse s)

append-trim_prefix : (s p : Str) → has_prefix s p ≡ true → p ++ trim_prefix s p ≡ s
unfolding trim_prefix
append-trim_prefix s p h = rw h (append-strip s p h)

trim_suffix-append_inv : (s p : Str) → has_suffix s p ≡ true → trim_suffix s p ++ p ≡ s
unfolding trim_suffix has_suffix
trim_suffix-append_inv s p h =
    sym (ap (λ x. reverse (trim_prefix (reverse s) (reverse p)) ++ x) (reverse-reverse p))
    ∙ sym (reverse-append (reverse p) (trim_prefix (reverse s) (reverse p)))
    ∙ ap reverse (append-trim_prefix (reverse s) (reverse p) h)
    ∙ reverse-reverse s

abbrev node_prefix : Str
node_prefix = codes "node:"

abbrev status_suffix : Str
status_suffix = codes ":status"

abbrev key_id : Str → Str
key_id key = trim_suffix (trim_prefix key node_prefix) status_suffix

-- What the function returns, by its tests.
abbrev picked : Bool → Bool → Str → Option Str
picked p s id =
    if not p || not s then none else if str_eq id [] || contains b':' id then none else some id

picked_lem :
    (key : Str)
    → node_id_from_status_key key
      ≡ picked (has_prefix key node_prefix) (has_suffix key status_suffix) (key_id key)
unfolding node_id_from_status_key
picked_lem key = refl

picked_inv :
    (p s : Bool) (id node : Str)
    → picked p s id ≡ some node
    → (p ≡ true) × (s ≡ true) × (id ≡ node) × (str_eq id [] ≡ false) × (contains b':' id ≡ false)
picked_inv p s id node h = ground arith

-- The lease key of a node whose id is not empty and holds no colon names that node.
pub node_id_from_status_key-node_status_key :
    (node : Str)
    → str_eq node [] ≡ false
    → contains b':' node ≡ false
    → node_id_from_status_key (node_status_key node) ≡ some node
unfolding node_status_key
node_id_from_status_key-node_status_key node full clean =
    let rest : Str = node ++ status_suffix in
    picked_lem (node_prefix ++ rest)
    ∙ rw (
      has_prefix-append node_prefix rest,
      has_suffix-append (node_prefix ++ node) status_suffix,
      trim_prefix-append node_prefix rest,
      trim_suffix-append node status_suffix,
      full,
      clean,
    )

-- Without the suffix of its own, a text without colons gets it from the prefix only as `status`.
overlap :
    (rest : Str)
    → contains b':' rest ≡ false
    → has_prefix (rest ++ reverse node_prefix) (reverse status_suffix) ≡ true
    → rest ≡ reverse (codes "status")
unfolding has_prefix contains
overlap [] c h = cc
overlap (a ∷ []) c h = ground arith
overlap (a ∷ b ∷ []) c h = ground arith
overlap (a ∷ b ∷ d ∷ []) c h = ground arith
overlap (a ∷ b ∷ d ∷ e ∷ []) c h = ground arith
overlap (a ∷ b ∷ d ∷ e ∷ f ∷ []) c h = ground arith
overlap (a ∷ b ∷ d ∷ e ∷ f ∷ g ∷ []) c h = ground arith
overlap (a ∷ b ∷ d ∷ e ∷ f ∷ g ∷ i ∷ rest) c h = ground arith

contains-append : (c : ℕ) (s t : Str) → contains c (s ++ t) ≡ (contains c s || contains c t)
unfolding contains
contains-append c [] t = refl
contains-append c (a ∷ s) t = ground (arith, contains-append c s t)

contains-reverse : (c : ℕ) (s : Str) → contains c (reverse s) ≡ contains c s
unfolding contains
contains-reverse c [] = refl
contains-reverse c (a ∷ s) =
    rw (reverse-cons a s)
      (ground (arith, contains-append c (reverse s) (a ∷ []), contains-reverse c s))

trim_suffix_absent : (s p : Str) → has_suffix s p ≡ false → trim_suffix s p ≡ s
unfolding trim_suffix trim_prefix has_suffix
trim_suffix_absent s p h = rw h (reverse-reverse s)

opened :
    (rest : Str)
    → has_suffix (node_prefix ++ rest) status_suffix ≡ true
    → has_prefix (reverse (node_prefix ++ rest)) (reverse status_suffix) ≡ true
unfolding has_suffix
opened rest h = h

-- Only one other key is read as a lease: `node:status`, whose prefix and suffix share the colon.
-- Every id that is returned is not empty and holds no colon, and the key is that node's lease key or
-- this one.
pub node_id_from_status_key_lem :
    (key node : Str)
    → node_id_from_status_key key ≡ some node
    → (str_eq node [] ≡ false)
      × (contains b':' node ≡ false)
      × ((key ≡ node_status_key node) ⊎ (key ≡ codes "node:status"))
unfolding node_status_key
node_id_from_status_key_lem key node h =
    let rest = trim_prefix key node_prefix in
    let facts = picked_inv _ _ (key_id key) node (sym (picked_lem key) ∙ h) in
    let whole : node_prefix ++ rest ≡ key = append-trim_prefix key node_prefix facts.0 in
    let same : trim_suffix rest status_suffix ≡ node = facts.2 in
    (
      rw⁻¹ same facts.3,
      rw⁻¹ same facts.4,
      elim (Bool-cases (has_suffix rest status_suffix)) [
        | inl own ↦ inl (
            sym whole
            ∙ ap (λ x. node_prefix ++ x)
                (sym (trim_suffix-append_inv rest status_suffix own)
                  ∙ ap (λ x. x ++ status_suffix) same))
        | inr shared ↦ inr (
            sym whole
            ∙ ap (λ x. node_prefix ++ x)
                (only rest (rw⁻¹ (trim_suffix_absent rest status_suffix shared) facts.4)
                  (rw whole facts.1)))
      ],
    )
  where
    only :
        (rest : Str)
        → contains b':' rest ≡ false
        → has_suffix (node_prefix ++ rest) status_suffix ≡ true
        → rest ≡ codes "status"
    only rest c h =
        sym (reverse-reverse rest)
        ∙ ap reverse (
            overlap (reverse rest) (contains-reverse b':' rest ∙ c)
              (rw⁻¹ (reverse-append node_prefix rest) (opened rest h)))
