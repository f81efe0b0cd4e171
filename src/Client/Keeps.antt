-- ===== src/Client/Keeps.antt =====
-- Invariants of the database under client code, whatever fails and whatever runs in between: one
-- rule for each way to build an action.
use orchestration.Prelude.{
  ℕ, zero, suc, ◌≡◌, refl, Bool, true, false, List, [], ◌∷◌, ◌++◌, if◌then◌else◌, Bool-cases, inl,
  inr,
}
use orchestration.Prelude.Int.{ℤ}
use orchestration.Prelude.Text.{Str}
use orchestration.Redis.{Redis}
use orchestration.Client.{
  Error, Result, ok, err, Fault, healthy, lost, unanswered, Level, Env, World, Client, Script, pure,
  fail, lift, try, ◌>>=◌, handle, collect, call, settle, continue, hash_get, set_members, ping,
  list_range, stream_read_reverse, key_exists, eval_script, scan_page, scan_keys, scan_loop, now,
  cancelled, random_hex, report, Act, observe, act,
}

-- The script `s`, run by the server, keeps `P`.
pub record KeepsIn (r : Redis) (P : r.Db → Type 0) {A : Type 0} (s : Script r A) : Type 0 where
  pub at : (db : r.Db) → P db → P (s db).1

module _ {r : Redis} where
  -- `m` keeps `P` of the database, whether it returns or fails.
  pub record Keeps (P : r.Db → Type 0) {A : Type 0} (m : Client r A) : Type 0 where
    pub at : (w : World r) → P w.db → P (m w).1.db

  -- The other processes keep it.
  pub record Stable (e : Env r) (P : r.Db → Type 0) : Type 0 where
    pub at : (n : ℕ) (db : r.Db) → P db → P (e.others n db)

module _ {r : Redis} {P : r.Db → Type 0} {A : Type 0} where
  pub Keeps-pure : (a : A) → Keeps P (pure {r = r} a)
  unfolding pure
  Keeps-pure a = record { at = λ w h. h }

  pub Keeps-fail : (c : Error) → Keeps P (fail {r = r} {A = A} c)
  unfolding fail
  Keeps-fail c = record { at = λ w h. h }

  pub Keeps-lift : (x : Result A) → Keeps P (lift {r = r} x)
  unfolding lift
  Keeps-lift x = record { at = λ w h. h }

  pub Keeps-try : (m : Client r A) → Keeps P m → Keeps P (try m)
  unfolding try
  Keeps-try m k = record { at = λ w h. k.at w h }

  pub Keeps-if :
      (test : Bool) (first second : Client r A)
      → (test ≡ true → Keeps P first)
      → (test ≡ false → Keeps P second)
      → Keeps P (if test then first else second)
  Keeps-if test first second on_yes on_no = elim (Bool-cases test) [
    | inl e ↦ rw e (on_yes e)
    | inr e ↦ rw e (on_no e)
  ]

  pub Keeps-handle {κ} :
      {X : Type κ} (x : Result X) (f : X → Client r A) (g : Error → Client r A)
      → ((a : X) → x ≡ ok a → Keeps P (f a))
      → ((c : Error) → Keeps P (g c))
      → Keeps P (handle x f g)
  Keeps-handle (ok a) f g kf kg = kf a refl
  Keeps-handle (err c) f g kf kg = kg c

  pub Keeps-call : (e : Env r) (s : Script r A) → Stable e P → KeepsIn r P s → Keeps P (call e s)
  unfolding call
  Keeps-call e s st k = record {
    at = λ w h.
        let db = e.others w.tick w.db in
        settled (e.fault w.tick) w db (s db) (st.at w.tick w.db h) (k.at db (st.at w.tick w.db h));
  }
    where
      settled :
          (f : Fault) (w : World r) (db : r.Db) (x : Result A × r.Db)
          → P db
          → P x.1
          → P (settle f w db x).1.db
      settled healthy w db x h k = k
      settled lost w db x h k = h
      settled unanswered w db x h k = k

module _ {r : Redis} {P : r.Db → Type 0} {A B : Type 0} where
  pub Keeps-bind :
      (m : Client r A) (f : A → Client r B)
      → Keeps P m
      → ((a : A) → Keeps P (f a))
      → Keeps P (m >>= f)
  unfolding ◌>>=◌
  Keeps-bind m f km kf = record { at = λ w h. let (x, w') = m w in rest x w' (km.at w h) }
    where
      rest : (x : Result A) (w' : World r) → P w'.db → P (continue x f w').1.db
      rest (ok a) w' h = (kf a).at w' h
      rest (err c) w' h = h

module _ {r : Redis} {P : r.Db → Type 0} {A B : Type 0} where
  pub Keeps-collect :
      (f : A → Client r (List B)) (xs : List A) → ((a : A) → Keeps P (f a)) → Keeps P (collect f xs)
  unfolding collect
  Keeps-collect f [] kf = Keeps-pure []
  Keeps-collect f (x ∷ xs) kf =
      Keeps-bind (f x) _ (kf x) λ here.
        Keeps-bind (collect f xs) _ (Keeps-collect f xs kf) λ rest. Keeps-pure (here ++ rest)

pub ruleset flow_rules = (
  Keeps-pure, Keeps-fail, Keeps-lift, Keeps-try, Keeps-if, Keeps-bind, Keeps-handle, Keeps-collect,
)

module _ {r : Redis} {P : r.Db → Type 0} (e : Env r) (st : Stable e P) where
  reads : {A : Type 0} (f : r.Db → A) → Keeps P (call e (λ db. (ok (f db), db)))
  reads f = Keeps-call e _ st (record { at = λ db h. h })

  pub Keeps-hash_get : (key : Str) → Keeps P (hash_get e key)
  unfolding hash_get
  Keeps-hash_get key = reads (λ db. r.hgetall db key)

  pub Keeps-set_members : (key : Str) → Keeps P (set_members e key)
  unfolding set_members
  Keeps-set_members key = reads (λ db. r.smembers db key)

  pub Keeps-key_exists : (key : Str) → Keeps P (key_exists e key)
  unfolding key_exists
  Keeps-key_exists key = reads (λ db. r.exists db key)

  pub Keeps-ping : Keeps P (ping e)
  unfolding ping
  Keeps-ping = reads (λ db. tt)

  pub Keeps-list_range : (key : Str) (start stop : ℤ) → Keeps P (list_range e key start stop)
  unfolding list_range
  Keeps-list_range key start stop = reads (λ db. r.lrange db key start stop)

  pub Keeps-stream_read_reverse : (key : Str) (n : ℕ) → Keeps P (stream_read_reverse e key n)
  unfolding stream_read_reverse
  Keeps-stream_read_reverse key n = reads (λ db. r.xrevrange db key n)

  Keeps-scan_page : (cursor : ℕ) (pattern : Str) → Keeps P (scan_page e cursor pattern)
  unfolding scan_page
  Keeps-scan_page cursor pattern = reads (λ db. r.scan db cursor pattern)

  Keeps-scan_loop :
      (fuel cursor : ℕ) (pattern : Str) (keys : List Str)
      → Keeps P (scan_loop e fuel cursor pattern keys)
  unfolding scan_loop
  Keeps-scan_loop zero cursor pattern keys = search flow_rules
  Keeps-scan_loop (suc fuel) cursor pattern keys =
      search (flow_rules, Keeps-scan_page, Keeps-scan_loop fuel)

  pub Keeps-scan_keys : (pattern : Str) → Keeps P (scan_keys e pattern)
  unfolding scan_keys
  Keeps-scan_keys pattern = Keeps-scan_loop e.pages 0 pattern []

  pub Keeps-eval_script : {A : Type 0} (s : Script r A) → KeepsIn r P s → Keeps P (eval_script e s)
  unfolding eval_script
  Keeps-eval_script s k = Keeps-call e s st k

module _ {r : Redis} {P : r.Db → Type 0} (e : Env r) where
  pub Keeps-now : Keeps P (now e)
  unfolding now
  Keeps-now = record { at = λ w h. h }

  pub Keeps-cancelled : Keeps P (cancelled e)
  unfolding cancelled
  Keeps-cancelled = record { at = λ w h. h }

  pub Keeps-random_hex : Keeps P (random_hex e)
  unfolding random_hex
  Keeps-random_hex = record { at = λ w h. h }

  pub Keeps-report : (level : Level) (event : Str) → Keeps P (report e level event)
  unfolding report
  Keeps-report level event = record { at = λ w h. h }

module _ {r : Redis} {P : r.Db → Type 0} where
  pub Keeps-observe : {A : Type 0} → (f : ℕ → A) → Keeps P (observe {r = r} f)
  unfolding observe
  Keeps-observe f = record { at = λ w h. h }

  pub Keeps-act : (a : Act) → Keeps P (act {r = r} a)
  unfolding act
  Keeps-act a = record { at = λ w h. h }

pub ruleset env_rules =
    (Keeps-now, Keeps-cancelled, Keeps-random_hex, Keeps-report, Keeps-observe, Keeps-act)
