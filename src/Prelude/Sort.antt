-- ===== src/Prelude/Sort.antt =====
-- sort.SliceStable: a stable sort by a Boolean `less`, as Go's comparison functions are.
use mathlib.Core.Path.{◌≡◌, refl, ap, ◌∙◌}
use mathlib.Core.Logic.{inl, inr}
use mathlib.Core.Bool.{Bool, true, false, ◌||◌}
use mathlib.Core.List.{List, [], ◌∷◌, ◌++◌, Perm}
use mathlib.Core.List.Perm
use native.Mathlib.Omega.{arith}
use orchestration.Prelude.Tests.{if◌then◌else◌, Bool-cases}
use orchestration.Prelude.Lists.{All, All-map, any, length}

module _ {ℓ} {A : Type ℓ} (less : A → A → Bool) where
  -- An entry goes in front of those that are not before it, so equals keep their order.
  unfoldable pub insert_by : A → List A → List A
  insert_by x [] = x ∷ []
  insert_by x (y ∷ ys) = let rest = insert_by x ys in if less y x then y ∷ rest else x ∷ y ∷ ys

  unfoldable pub sort_by : List A → List A
  unfolding insert_by
  sort_by [] = []
  sort_by (x ∷ xs) = insert_by x (sort_by xs)

  -- No entry is before one that stands in front of it.
  abbrev pub IsSorted : List A → Type ℓ
  IsSorted [] = Unit
  IsSorted (x ∷ xs) = All (λ y. less y x ≡ false) xs × IsSorted xs

  insert_by-perm : (x : A) (ys : List A) → Perm (insert_by x ys) (x ∷ ys)
  unfolding insert_by
  insert_by-perm x [] = Perm.refl _
  insert_by-perm x (y ∷ ys) = elim (Bool-cases (less y x)) [
    | inl e ↦ rw e (Perm.trans (Perm.cons y (insert_by-perm x ys)) (Perm.swap x y ys))
    | inr e ↦ rw e (Perm.refl _)
  ]

  -- Sorting keeps every entry, as often.
  pub sort_by-perm : (xs : List A) → Perm (sort_by xs) xs
  unfolding sort_by
  sort_by-perm [] = Perm.refl _
  sort_by-perm (x ∷ xs) = Perm.trans (insert_by-perm x (sort_by xs)) (Perm.cons x (sort_by-perm xs))

  insert_by-All {κ} :
      (P : A → Type κ) (x : A) (ys : List A) → P x → All P ys → All P (insert_by x ys)
  unfolding insert_by
  insert_by-All P x [] h k = (h, tt)
  insert_by-All P x (y ∷ ys) h k = elim (Bool-cases (less y x)) [
    | inl e ↦ rw e (k.0, insert_by-All P x ys h k.1)
    | inr e ↦ rw e (h, k)
  ]

  pub sort_by-All {κ} : (P : A → Type κ) (xs : List A) → All P xs → All P (sort_by xs)
  unfolding sort_by
  sort_by-All P [] h = tt
  sort_by-All P (x ∷ xs) h = insert_by-All P x (sort_by xs) h.0 (sort_by-All P xs h.1)

  length-insert_by : (x : A) (ys : List A) → length (insert_by x ys) ≡ length (x ∷ ys)
  unfolding insert_by
  length-insert_by x [] = refl
  length-insert_by x (y ∷ ys) = ground (arith, length-insert_by x ys)

  pub length-sort_by : (xs : List A) → length (sort_by xs) ≡ length xs
  unfolding sort_by
  length-sort_by [] = refl
  length-sort_by (x ∷ xs) = omega (arith, length-insert_by x (sort_by xs), length-sort_by xs)

-- What a comparison must satisfy for a sort to make sense: a strict weak order.
pub record IsStrictWeak {ℓ} {A : Type ℓ} (less : A → A → Bool) : Type ℓ where
  pub asym : (x y : A) → less x y ≡ true → less y x ≡ false
  pub neg_trans : (x y z : A) → less y x ≡ false → less z y ≡ false → less z x ≡ false

module _ {ℓ} {A : Type ℓ} (less : A → A → Bool) (order : IsStrictWeak less) where
  insert_by-IsSorted :
      (x : A) (ys : List A) → IsSorted less ys → IsSorted less (insert_by less x ys)
  unfolding insert_by
  insert_by-IsSorted x [] h = (tt, tt)
  insert_by-IsSorted x (y ∷ ys) h = elim (Bool-cases (less y x)) [
    | inl e ↦ rw e (
      insert_by-All less (λ z. less z y ≡ false) x ys (order.asym y x e) h.0,
      insert_by-IsSorted x ys h.1,
    )
    | inr e ↦ rw e ((e, All-map (λ z q. order.neg_trans x y z e q) ys h.0), h)
  ]

  pub sort_by-IsSorted : (xs : List A) → IsSorted less (sort_by less xs)
  unfolding sort_by
  sort_by-IsSorted [] = tt
  sort_by-IsSorted (x ∷ xs) = insert_by-IsSorted x (sort_by less xs) (sort_by-IsSorted xs)

-- Where two entries that are not before one another are the same, the order of insertion does not
-- show.
module _ {ℓ} {A : Type ℓ} (less : A → A → Bool) (order : IsStrictWeak less)
    (total : (x y : A) → less x y ≡ false → less y x ≡ false → x ≡ y) where
  insert_two :
      (x y : A) (zs : List A)
      → (if less y x then y ∷ x ∷ zs else x ∷ y ∷ zs)
        ≡ (if less x y then x ∷ y ∷ zs else y ∷ x ∷ zs)
  insert_two x y zs = elim (Bool-cases (less y x)) [
    | inl e ↦ rw (e, order.asym y x e)
    | inr e ↦ elim (Bool-cases (less x y)) [
      | inl k ↦ rw (e, k)
      | inr k ↦ rw (e, k) (rw (total x y k e))
    ]
  ]

  pub insert_by_comm :
      (x y : A) (zs : List A)
      → insert_by less x (insert_by less y zs) ≡ insert_by less y (insert_by less x zs)
  unfolding insert_by
  insert_by_comm x y [] = insert_two x y []
  insert_by_comm x y (z ∷ zs) = ground (
    arith,
    insert_by_comm x y zs,
    insert_two x y (z ∷ zs),
    order.neg_trans x y z,
    order.neg_trans y x z,
    order.asym x y,
  )

  pub sort_by-append :
      (xs : List A) (y : A) → sort_by less (xs ++ y ∷ []) ≡ insert_by less y (sort_by less xs)
  unfolding sort_by
  sort_by-append [] y = refl
  sort_by-append (x ∷ xs) y =
      ap (insert_by less x) (sort_by-append xs y) ∙ insert_by_comm x y (sort_by less xs)

any-insert_by :
    {A : Type 0} (less : A → A → Bool) (p : A → Bool) (x : A) (ys : List A)
    → any p (insert_by less x ys) ≡ (p x || any p ys)
unfolding insert_by
any-insert_by less p x [] = refl
any-insert_by less p x (y ∷ ys) = ground (arith, any-insert_by less p x ys)

pub any-sort_by :
    {A : Type 0} (less : A → A → Bool) (p : A → Bool) (xs : List A)
    → any p (sort_by less xs) ≡ any p xs
unfolding sort_by
any-sort_by less p [] = refl
any-sort_by less p (x ∷ xs) =
    any-insert_by less p x (sort_by less xs) ∙ rw (any-sort_by less p xs) refl
