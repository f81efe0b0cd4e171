-- ===== src/Client/Calm.antt =====
-- Surroundings in which every call is served and no other process writes.
use orchestration.Prelude.{ℕ, suc, ◌≡◌, refl, ◌∙◌, List, [], ◌∷◌, ◌++◌}
use orchestration.Redis.{Redis}
use orchestration.Client.{healthy, ok, Env, World, Client, Script, call, pure, try, collect, ◌>>=◌}

module _ {r : Redis} where
  pub record Calm (e : Env r) : Type 0 where
    pub served : (n : ℕ) → e.fault n ≡ healthy
    pub alone : (n : ℕ) (db : r.Db) → e.others n db ≡ db

  pub call-Calm :
      {A : Type 0} (e : Env r) (calm : Calm e) (s : Script r A) (w : World r)
      → call e s w ≡ ((s w.db).0, record w { db = (s w.db).1; tick = suc w.tick })
  unfolding call
  call-Calm e calm s w = rw (calm.served w.tick, calm.alone w.tick w.db)

-- A list from the results of a function on each entry.
abbrev pub concat_map : {A B : Type 0} → (A → List B) → List A → List B
concat_map f [] = []
concat_map f (x ∷ xs) = f x ++ concat_map f xs

module _ {r : Redis} where
  -- `m` returns what `g` says of the database, and leaves the database as it was.
  pub record Reads {A : Type 0} (g : r.Db → A) (m : Client r A) : Type 0 where
    pub at : (w : World r) → (v : World r) × (m w ≡ (ok (g w.db), v)) × (v.db ≡ w.db)

module _ {r : Redis} {A : Type 0} where
  pub Reads-pure : (a : A) → Reads {r = r} (λ db. a) (pure a)
  unfolding pure
  Reads-pure a = record { at = λ w. (w, refl, refl) }

  pub Reads-call : (e : Env r) → Calm e → (f : r.Db → A) → Reads f (call e (λ db. (ok (f db), db)))
  Reads-call e calm f = record { at = λ w. (_, call-Calm e calm _ w, refl) }

  pub Reads-try : (g : r.Db → A) (m : Client r A) → Reads g m → Reads (λ db. ok (g db)) (try m)
  unfolding try
  Reads-try g m k = record { at = λ w. let (v, p, q) = k.at w in (v, rw p refl, q) }

module _ {r : Redis} {A B : Type 0} where
  pub Reads-bind :
      (g : r.Db → A) (h : A → r.Db → B) (m : Client r A) (f : A → Client r B)
      → Reads g m
      → ((a : A) → Reads (h a) (f a))
      → Reads (λ db. h (g db) db) (m >>= f)
  unfolding ◌>>=◌
  Reads-bind g h m f km kf = record {
    at = λ w.
        let (v, p, q) = km.at w in
        let (u, p', q') = (kf (g w.db)).at v in (u, rw p (rw p' (rw q)), q' ∙ q);
  }

module _ {r : Redis} {A B : Type 0} where
  pub Reads-collect :
      (g : A → r.Db → List B) (f : A → Client r (List B)) (xs : List A)
      → ((a : A) → Reads (g a) (f a))
      → Reads (λ db. concat_map (λ a. g a db) xs) (collect f xs)
  unfolding collect
  Reads-collect g f [] k = Reads-pure []
  Reads-collect g f (x ∷ xs) k =
      Reads-bind (g x) (λ here db. here ++ concat_map (λ a. g a db) xs) (f x) _ (k x)
        λ here.
          Reads-bind (λ db. concat_map (λ a. g a db) xs) (λ rest db. here ++ rest) (collect f xs) _
            (Reads-collect g f xs k) λ rest. Reads-pure (here ++ rest)
