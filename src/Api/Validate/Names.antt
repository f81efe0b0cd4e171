-- ===== src/Api/Validate/Names.antt =====
-- internal/api/validate.go: the pattern of deployment names.
use orchestration.Prelude.{ℕ, ◌≡◌, refl, Bool, true, false, ◌&&◌, [], ◌∷◌, ◌↔◌, arith, All}
use orchestration.Prelude.Text.{Str, contains}
use orchestration.Api.Validate.{is_alnum, is_label_char, ends_alnum, is_deployment_name}

abbrev first_alnum : Str → Bool
first_alnum [] = false
first_alnum (c ∷ s) = is_alnum c

abbrev last_alnum : Str → Bool
last_alnum [] = false
last_alnum (c ∷ []) = is_alnum c
last_alnum (c ∷ d ∷ s) = last_alnum (d ∷ s)

-- Letters, digits and hyphens, with no hyphen at either end.
abbrev pub IsLabel : Str → Type 0
IsLabel s = All (λ c. is_label_char c ≡ true) s × (first_alnum s ≡ true) × (last_alnum s ≡ true)

abbrev Ends : Str → Type 0
Ends s = All (λ c. is_label_char c ≡ true) s × (last_alnum s ≡ true)

and_true : (a b : Bool) → (a && b) ≡ true → (a ≡ true) × (b ≡ true)
and_true a b h = ground arith

alnum_label : (c : ℕ) → is_alnum c ≡ true → is_label_char c ≡ true
alnum_label c h = ground arith

ends_alnum_iff : (s : Str) → (ends_alnum s ≡ true) ↔ Ends s
unfolding ends_alnum
ends_alnum_iff [] = ground arith
ends_alnum_iff (c ∷ []) = ground arith
ends_alnum_iff (c ∷ d ∷ s) =
    let ih = ends_alnum_iff (d ∷ s) in
    (
      (λ h. let both = and_true _ _ h in let e = ih.0 both.1 in ((both.0, e.0), e.1)),
      λ h. rw h.0.0 (ih.1 (h.0.1, h.1)),
    )

-- The pattern accepts exactly the labels.
pub is_deployment_name_iff : (s : Str) → (is_deployment_name s ≡ true) ↔ IsLabel s
unfolding is_deployment_name
is_deployment_name_iff [] = ground arith
is_deployment_name_iff (c ∷ []) = ground arith
is_deployment_name_iff (c ∷ d ∷ s) =
    let tail = ends_alnum_iff (d ∷ s) in
    (
      (λ h.
          let both = and_true _ _ h in
          let e = tail.0 both.1 in ((alnum_label c both.0, e.0), both.0, e.1)),
      λ h. rw h.1 (tail.1 (h.0.1, h.2)),
    )

-- So no name that it accepts holds the separator of the keys.
pub IsLabel-contains : (s : Str) → All (λ c. is_label_char c ≡ true) s → contains b':' s ≡ false
unfolding contains
IsLabel-contains [] a = refl
IsLabel-contains (c ∷ s) (h, a) = ground (arith, IsLabel-contains s a)
