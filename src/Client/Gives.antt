-- ===== src/Client/Gives.antt =====
-- What an action returns while an invariant of the database is kept: one rule for each way to build
-- an action.
use orchestration.Prelude.{◌≡◌, refl, List, [], ◌∷◌, ◌++◌, All, All-append}
use orchestration.Redis.{Redis}
use orchestration.Client.{
  Error, Result, ok, err, healthy, lost, unanswered, Fault, Env, World, Client, pure, try, handle,
  ◌>>=◌, collect, call, settle, continue,
}
use orchestration.Client.Keeps.{Keeps, Stable}

-- A result, where there is one, satisfies `Q`.
abbrev pub Holds : {A : Type 0} → (A → Type 0) → Result A → Type 0
Holds Q (ok a) = Q a
Holds Q (err c) = Unit {0}

module _ {r : Redis} where
  -- Where `P` holds, `m` keeps it, and what it returns satisfies `Q`.
  pub record Gives (P : r.Db → Type 0) {A : Type 0} (Q : A → Type 0) (m : Client r A) : Type 0 where
    pub at : (w : World r) → P w.db → Holds Q (m w).0 × P (m w).1.db

module _ {r : Redis} {P : r.Db → Type 0} {A : Type 0} {Q : A → Type 0} where
  pub Keeps-Gives : (m : Client r A) → Gives P Q m → Keeps P m
  Keeps-Gives m g = record { at = λ w h. (g.at w h).1 }

  pub Gives-pure : (a : A) → Q a → Gives P Q (pure {r = r} a)
  unfolding pure
  Gives-pure a q = record { at = λ w h. (q, h) }

  pub Gives-call :
      (e : Env r) (f : r.Db → A)
      → Stable e P
      → ((db : r.Db) → P db → Q (f db))
      → Gives P Q (call e (λ db. (ok (f db), db)))
  unfolding call
  Gives-call e f st q = record {
    at = λ w h. settled (e.fault w.tick) w (e.others w.tick w.db) (st.at w.tick w.db h);
  }
    where
      settled :
          (fault : Fault) (w : World r) (db : r.Db)
          → P db
          → Holds Q (settle fault w db (ok (f db), db)).0
            × P (settle fault w db (ok (f db), db)).1.db
      settled healthy w db h = (q db h, h)
      settled lost w db h = (tt, h)
      settled unanswered w db h = (tt, h)

  pub Gives-try : (m : Client r A) → Gives P Q m → Gives P (Holds Q) (try m)
  unfolding try
  Gives-try m g = record { at = λ w h. g.at w h }

  pub Gives-handle {κ} :
      {X : Type κ} (x : Result X) (f : X → Client r A) (g : Error → Client r A)
      → ((a : X) → x ≡ ok a → Gives P Q (f a))
      → ((c : Error) → Gives P Q (g c))
      → Gives P Q (handle x f g)
  Gives-handle (ok a) f g kf kg = kf a refl
  Gives-handle (err c) f g kf kg = kg c

module _ {r : Redis} {P : r.Db → Type 0} {A : Type 0} where
  pub Gives-Keeps : (m : Client r A) → Keeps P m → Gives P (λ x. Unit {0}) m
  Gives-Keeps m k = record { at = λ w h. (any (m w).0, k.at w h) }
    where
      any : (x : Result A) → Holds (λ y. Unit {0}) x
      any (ok a) = tt
      any (err c) = tt

module _ {r : Redis} {P : r.Db → Type 0} {A B : Type 0} (Q : A → Type 0) {R : B → Type 0} where
  -- The rest of a block may use what its first step returned.
  pub Gives-bind :
      (m : Client r A) (f : A → Client r B)
      → Gives P Q m
      → ((a : A) → Q a → Gives P R (f a))
      → Gives P R (m >>= f)
  unfolding ◌>>=◌
  Gives-bind m f km kf = record { at = λ w h. let (x, w') = m w in rest x w' (km.at w h) }
    where
      rest :
          (x : Result A) (w' : World r)
          → Holds Q x × P w'.db
          → Holds R (continue x f w').0 × P (continue x f w').1.db
      rest (ok a) w' k = (kf a k.0).at w' k.1
      rest (err c) w' k = (tt, k.1)

module _ {r : Redis} {P : r.Db → Type 0} {A B : Type 0} (Q : A → Type 0) where
  pub Keeps-bind_with :
      (m : Client r A) (f : A → Client r B)
      → Gives P Q m
      → ((a : A) → Q a → Keeps P (f a))
      → Keeps P (m >>= f)
  Keeps-bind_with m f km kf =
      Keeps-Gives (m >>= f) (Gives-bind Q m f km λ a q. Gives-Keeps (f a) (kf a q))

module _ {r : Redis} {P : r.Db → Type 0} {A B : Type 0} (Q : B → Type 0) where
  pub Gives-collect :
      (f : A → Client r (List B)) (xs : List A)
      → ((a : A) → Gives P (All Q) (f a))
      → Gives P (All Q) (collect f xs)
  unfolding collect
  Gives-collect f [] kf = Gives-pure [] tt
  Gives-collect f (x ∷ xs) kf = Gives-bind (All Q) (f x) _ (kf x) λ here h.
      Gives-bind (All Q) (collect f xs) _ (Gives-collect f xs kf)
        λ rest k. Gives-pure (here ++ rest) (All-append Q here rest h k)
