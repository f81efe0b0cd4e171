-- ===== src/Client/Returns.antt =====
-- What an action returns when it returns: one rule for each way to build an action.
use orchestration.Prelude.{
  ◌≡◌, refl, Bool, true, false, List, [], ◌∷◌, ◌++◌, if◌then◌else◌, Bool-cases, inl, inr, All,
  All-append,
}
use orchestration.Redis.{Redis}
use orchestration.Client.{
  Error, Result, ok, err, World, Client, pure, fail, ◌>>=◌, handle, collect, continue,
}

-- Every result that `m` returns without an error satisfies `Q`.
pub record Returns {r : Redis} {A : Type 0} (Q : A → Type 0) (m : Client r A) : Type 0 where
  pub at : (w : World r) (a : A) → (m w).0 ≡ ok a → Q a

module _ {r : Redis} {A : Type 0} {Q : A → Type 0} where
  pub Returns-pure : (a : A) → Q a → Returns {r = r} Q (pure a)
  unfolding pure
  Returns-pure a q = record { at = λ w b e. rw (ok_inj a b e) at q }
    where
      ok_inj : (a b : A) → ok a ≡ ok b → a ≡ b
      ok_inj a b e = cc

  pub Returns-fail : (c : Error) → Returns {r = r} Q (fail c)
  unfolding fail
  Returns-fail c = record { at = λ w a e. cc }

  pub Returns-if :
      (test : Bool) (first second : Client r A)
      → (test ≡ true → Returns Q first)
      → (test ≡ false → Returns Q second)
      → Returns Q (if test then first else second)
  Returns-if test first second on_yes on_no = elim (Bool-cases test) [
    | inl e ↦ rw e (on_yes e)
    | inr e ↦ rw e (on_no e)
  ]

  pub Returns-handle {κ} :
      {X : Type κ} (x : Result X) (f : X → Client r A) (g : Error → Client r A)
      → ((a : X) → x ≡ ok a → Returns Q (f a))
      → ((c : Error) → Returns Q (g c))
      → Returns Q (handle x f g)
  Returns-handle (ok a) f g kf kg = kf a refl
  Returns-handle (err c) f g kf kg = kg c

module _ {r : Redis} {A B : Type 0} (P : A → Type 0) {Q : B → Type 0} where
  -- The rest of a block may use what its first step returned.
  pub Returns-bind :
      (m : Client r A) (f : A → Client r B)
      → Returns P m
      → ((a : A) → P a → Returns Q (f a))
      → Returns Q (m >>= f)
  unfolding ◌>>=◌
  Returns-bind m f km kf = record {
    at = λ w b e. let (x, w') = m w in rest x w' b (km.at w) refl e;
  }
    where
      rest :
          (x : Result A) (w' : World r) (b : B)
          → ((a : A) → x ≡ ok a → P a)
          → x ≡ x
          → (continue x f w').0 ≡ ok b
          → Q b
      rest (ok a) w' b p same e = (kf a (p a refl)).at w' b e
      rest (err c) w' b p same e = cc

-- Nothing is known of a result.
abbrev pub Any : {A : Type 0} → A → Type 0
Any a = Unit {0}

module _ {r : Redis} {A : Type 0} where
  pub Returns-Any : (m : Client r A) → Returns Any m
  Returns-Any m = record { at = λ w a e. tt }

module _ {r : Redis} {A B : Type 0} (Q : B → Type 0) where
  -- A loop that appends collects what its body returns.
  pub Returns-collect :
      (f : A → Client r (List B)) (xs : List A)
      → ((a : A) → Returns (All Q) (f a))
      → Returns (All Q) (collect f xs)
  unfolding collect
  Returns-collect f [] kf = Returns-pure [] tt
  Returns-collect f (x ∷ xs) kf = Returns-bind (All Q) (f x) _ (kf x) λ here h.
      Returns-bind (All Q) (collect f xs) _ (Returns-collect f xs kf)
        λ rest k. Returns-pure (here ++ rest) (All-append Q here rest h k)
