-- ===== src/Client/Yields.antt =====
-- Actions that never fail, and what holds of what they give: one rule for each way to build one.
use orchestration.Prelude.{ℕ, ◌≡◌, refl, Bool, if◌then◌else◌, Bool-cases, inl, inr}
use orchestration.Prelude.Text.{Str}
use orchestration.Redis.{Redis}
use orchestration.Client.{
  Error, Result, ok, err, Level, Env, World, Client, pure, try, handle, ◌>>=◌, observe, cancelled,
  report,
}

-- `m` ends without an error, and what it returns satisfies `Q`.
pub record Yields {r : Redis} {A : Type 0} (Q : A → Type 0) (m : Client r A) : Type 0 where
  pub at : (w : World r) → (a : A) × (v : World r) × (m w ≡ (ok a, v)) × Q a

module _ {r : Redis} {A : Type 0} {Q : A → Type 0} where
  pub Yields-pure : (a : A) → Q a → Yields {r = r} Q (pure a)
  unfolding pure
  Yields-pure a q = record { at = λ w. (a, w, refl, q) }

  pub Yields-observe : (f : ℕ → A) → ((n : ℕ) → Q (f n)) → Yields {r = r} Q (observe f)
  unfolding observe
  Yields-observe f q = record { at = λ w. (f w.tick, _, refl, q w.tick) }

  pub Yields-if :
      (test : Bool) (first second : Client r A)
      → Yields Q first
      → Yields Q second
      → Yields Q (if test then first else second)
  Yields-if test first second on_yes on_no = elim (Bool-cases test) [
    | inl e ↦ rw e on_yes
    | inr e ↦ rw e on_no
  ]

  pub Yields-handle {κ} :
      {X : Type κ} (x : Result X) (f : X → Client r A) (g : Error → Client r A)
      → ((a : X) → Yields Q (f a))
      → ((c : Error) → Yields Q (g c))
      → Yields Q (handle x f g)
  Yields-handle (ok a) f g kf kg = kf a
  Yields-handle (err c) f g kf kg = kg c

module _ {r : Redis} {A : Type 0} where
  -- An action that is tried gives its outcome.
  pub Yields-try : (m : Client r A) → Yields (λ x. Unit {0}) (try m)
  unfolding try
  Yields-try m = record { at = λ w. (_, _, refl, tt) }

module _ {r : Redis} (e : Env r) where
  pub Yields-cancelled : Yields (λ x. Unit {0}) (cancelled e)
  unfolding cancelled
  Yields-cancelled = record { at = λ w. (_, _, refl, tt) }

  pub Yields-report : (level : Level) (event : Str) → Yields (λ x. Unit {0}) (report e level event)
  unfolding report
  Yields-report level event = record { at = λ w. (_, _, refl, tt) }

module _ {r : Redis} {A B : Type 0} (P : A → Type 0) {Q : B → Type 0} where
  pub Yields-bind :
      (m : Client r A) (f : A → Client r B)
      → Yields P m
      → ((a : A) → P a → Yields Q (f a))
      → Yields Q (m >>= f)
  unfolding ◌>>=◌
  Yields-bind m f km kf = record {
    at = λ w.
        let (a, v, p, q) = km.at w in let (b, u, p', q') = (kf a q).at v in (b, u, rw p p', q');
  }

-- Nothing is known of what is returned.
abbrev pub Ends : {r : Redis} {A : Type 0} → Client r A → Type 0
Ends m = Yields (λ x. Unit {0}) m

module _ {r : Redis} {A : Type 0} where
  pub Ends-pure : (a : A) → Ends {r = r} (pure a)
  Ends-pure a = Yields-pure a tt

  pub Ends-observe : (f : ℕ → A) → Ends {r = r} (observe f)
  Ends-observe f = Yields-observe f (λ n. tt)

module _ {r : Redis} {A B : Type 0} where
  pub Ends-bind :
      (m : Client r A) (f : A → Client r B) → Ends m → ((a : A) → Ends (f a)) → Ends (m >>= f)
  Ends-bind m f km kf = Yields-bind _ m f km (λ a _. kf a)

pub ruleset ends_rules = (
  Ends-pure, Ends-observe, Ends-bind, Yields-try, Yields-if, Yields-handle, Yields-cancelled,
  Yields-report,
)
