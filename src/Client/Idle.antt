-- ===== src/Client/Idle.antt =====
-- Actions that do nothing to the machine: one rule for each way to build an action.
use orchestration.Prelude.{ℕ, zero, suc, ◌≡◌, refl, ◌∙◌, Bool, true, false, List, [], if◌then◌else◌}
use orchestration.Prelude.Text.{Str}
use orchestration.Redis.{Redis, Hash}
use orchestration.Client.{
  Level, observe, report, now, hash_set, Error, Result, ok, err, Fault, healthy, lost, unanswered,
  Env, World, Client, Script, call, settle, scan_page, scan_loop, scan_keys, ◌>>=◌, continue, pure,
  fail, try,
}

module _ {r : Redis} where
  -- `m` leaves the record of what was done to the machine as it was.
  pub record Idle {A : Type 0} (m : Client r A) : Type 0 where
    pub at : (w : World r) → (m w).1.acts ≡ w.acts

module _ {r : Redis} {A : Type 0} where
  pub Idle-pure : (a : A) → Idle (pure {r = r} a)
  unfolding pure
  Idle-pure a = record { at = λ w. refl }

  pub Idle-fail : (c : Error) → Idle (fail {r = r} {A = A} c)
  unfolding fail
  Idle-fail c = record { at = λ w. refl }

  pub Idle-try : (m : Client r A) → Idle m → Idle (try m)
  unfolding try
  Idle-try m k = record { at = λ w. k.at w }

  pub Idle-if : (test : Bool) (m n : Client r A) → Idle m → Idle n → Idle (if test then m else n)
  Idle-if true m n km kn = km
  Idle-if false m n km kn = kn

  pub Idle-call : (e : Env r) (s : Script r A) → Idle (call e s)
  unfolding call
  Idle-call e s = record {
    at = λ w. let db = e.others w.tick w.db in kept (e.fault w.tick) w db (s db);
  }
    where
      kept :
          (f : Fault) (w : World r) (db : r.Db) (x : Result A × r.Db)
          → (settle f w db x).1.acts ≡ w.acts
      kept healthy w db x = refl
      kept lost w db x = refl
      kept unanswered w db x = refl

module _ {r : Redis} {A B : Type 0} where
  pub Idle-bind :
      (m : Client r A) (f : A → Client r B) → Idle m → ((a : A) → Idle (f a)) → Idle (m >>= f)
  unfolding ◌>>=◌
  Idle-bind m f km kf = record { at = λ w. let (x, w') = m w in rest x w' ∙ km.at w }
    where
      rest : (x : Result A) (w' : World r) → (continue x f w').1.acts ≡ w'.acts
      rest (ok a) w' = (kf a).at w'
      rest (err c) w' = refl

module _ {r : Redis} where
  pub Idle-observe : {A : Type 0} (f : ℕ → A) → Idle (observe {r = r} f)
  unfolding observe
  Idle-observe f = record { at = λ w. refl }

  pub Idle-report : (e : Env r) (level : Level) (event : Str) → Idle (report e level event)
  unfolding report
  Idle-report e level event = record { at = λ w. refl }

  pub Idle-now : (e : Env r) → Idle (now e)
  unfolding now
  Idle-now e = record { at = λ w. refl }

  pub Idle-hash_set : (e : Env r) (key : Str) (fields : Hash) → Idle (hash_set e key fields)
  unfolding hash_set
  Idle-hash_set e key fields = Idle-call e _

pub ruleset idle_rules = (
  Idle-pure, Idle-fail, Idle-try, Idle-if, Idle-call, Idle-bind, Idle-observe, Idle-report,
  Idle-now, Idle-hash_set,
)

module _ {r : Redis} (e : Env r) where
  Idle-scan_loop :
      (fuel cursor : ℕ) (pattern : Str) (keys : List Str)
      → Idle (scan_loop e fuel cursor pattern keys)
  unfolding scan_loop scan_page
  Idle-scan_loop zero cursor pattern keys = search idle_rules
  Idle-scan_loop (suc fuel) cursor pattern keys = search (idle_rules, Idle-scan_loop fuel)

  pub Idle-scan_keys : (pattern : Str) → Idle (scan_keys e pattern)
  unfolding scan_keys
  Idle-scan_keys pattern = Idle-scan_loop e.pages 0 pattern []
