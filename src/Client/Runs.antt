-- ===== src/Client/Runs.antt =====
-- What an action returns and leaves, from what held of the database before: one rule for each way to
-- build an action.
use orchestration.Prelude.{ℕ, Bool, true, false, if◌then◌else◌}
use orchestration.Redis.{Redis}
use orchestration.Client.{
  Error, Result, ok, err, Fault, healthy, lost, unanswered, Env, World, Client, pure, fail, try,
  observe, ◌>>=◌, call, settle, continue,
}
use orchestration.Client.Keeps.{Keeps, Stable}

module _ {r : Redis} where
  -- From a database where `P` holds, `m` ends with a result and a database that satisfy `Q`.
  pub record Runs {A : Type 0} (P : r.Db → Type 0) (Q : Result A → r.Db → Type 0) (m : Client r A)
      : Type 0 where
    pub at : (w : World r) → P w.db → Q (m w).0 (m w).1.db

abbrev pub Either : {A D : Type 0} → (A → D → Type 0) → (Error → D → Type 0) → Result A → D → Type 0
Either Q F (ok a) db = Q a db
Either Q F (err c) db = F c db

module _ {r : Redis} {A : Type 0} {P : r.Db → Type 0} where
  pub Runs-pure :
      {Q : Result A → r.Db → Type 0} (a : A)
      → ((db : r.Db) → P db → Q (ok a) db)
      → Runs {r = r} P Q (pure a)
  unfolding pure
  Runs-pure a q = record { at = λ w h. q w.db h }

  pub Runs-fail :
      {Q : Result A → r.Db → Type 0} (c : Error)
      → ((db : r.Db) → P db → Q (err c) db)
      → Runs {r = r} P Q (fail {A = A} c)
  unfolding fail
  Runs-fail c q = record { at = λ w h. q w.db h }

  pub Runs-if :
      {Q : Result A → r.Db → Type 0} (test : Bool) (m n : Client r A)
      → Runs P Q m
      → Runs P Q n
      → Runs P Q (if test then m else n)
  Runs-if true m n km kn = km
  Runs-if false m n km kn = kn

  pub Runs-try :
      {Q : Result (Result A) → r.Db → Type 0} (m : Client r A)
      → Runs P (λ x db. Q (ok x) db) m
      → Runs P Q (try m)
  unfolding try
  Runs-try m k = record { at = λ w h. k.at w h }

  pub Runs-Keeps : (m : Client r A) → Keeps P m → Runs P (λ x db. P db) m
  Runs-Keeps m k = record { at = λ w h. k.at w h }

  pub Runs-observe :
      {Q : Result A → r.Db → Type 0} (f : ℕ → A)
      → ((n : ℕ) (db : r.Db) → P db → Q (ok (f n)) db)
      → Runs {r = r} P Q (observe f)
  unfolding observe
  Runs-observe f q = record { at = λ w h. q w.tick w.db h }

  pub Runs-read :
      {Q : Result A → r.Db → Type 0} (e : Env r) (f : r.Db → A)
      → Stable e P
      → ((db : r.Db) → P db → Q (ok (f db)) db)
      → ((c : Error) (db : r.Db) → P db → Q (err c) db)
      → Runs P Q (call e (λ db. (ok (f db), db)))
  unfolding call
  Runs-read {Q} e f st good bad = record {
    at = λ w h. settled (e.fault w.tick) w (e.others w.tick w.db) (st.at w.tick w.db h);
  }
    where
      settled :
          (fault : Fault) (w : World r) (db : r.Db)
          → P db
          → Q (settle fault w db (ok (f db), db)).0 (settle fault w db (ok (f db), db)).1.db
      settled healthy w db h = good db h
      settled lost w db h = bad _ db h
      settled unanswered w db h = bad _ db h

module _ {r : Redis} {A B : Type 0} {P : r.Db → Type 0} {Q : Result B → r.Db → Type 0} where
  pub Runs-bind :
      (M : A → r.Db → Type 0) (m : Client r A) (f : A → Client r B)
      → Runs P (Either M (λ c db. Q (err c) db)) m
      → ((a : A) → Runs (M a) Q (f a))
      → Runs P Q (m >>= f)
  unfolding ◌>>=◌
  Runs-bind M m f km kf = record { at = λ w h. let (x, w') = m w in rest x w' (km.at w h) }
    where
      rest :
          (x : Result A) (w' : World r)
          → Either M (λ c db. Q (err c) db) x w'.db
          → Q (continue x f w').0 (continue x f w').1.db
      rest (ok a) w' k = (kf a).at w' k
      rest (err c) w' k = k
