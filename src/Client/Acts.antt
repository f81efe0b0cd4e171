-- ===== src/Client/Acts.antt =====
-- What an action does to processes: one rule for each way to build an action.
use orchestration.Prelude.{
  ℕ, suc, ◌≡◌, Bool, true, false, List, [], ◌∷◌, if◌then◌else◌, Bool-cases, inl, inr, All,
  All-append,
}
use orchestration.Prelude.Text.{Str}
use orchestration.Redis.{Redis, Hash}
use orchestration.Client.{
  Result, ok, err, Fault, healthy, lost, unanswered, Script, call, settle, hash_set, now, Act,
  World, Client, pure, ◌>>=◌, continue, observe, act, report, Level, Env,
}

module _ {r : Redis} (P : Act → Type 0) where
  -- Every act that `m` adds satisfies `P`.
  pub record Only {A : Type 0} (m : Client r A) : Type 0 where
    pub adds : (w : World r) → All P w.acts → All P (m w).1.acts

module _ {r : Redis} {P : Act → Type 0} where
  pub Only-pure : {A : Type 0} → (a : A) → Only P (pure {r = r} a)
  unfolding pure
  Only-pure a = record { adds = λ w sofar. sofar }

  pub Only-observe : {A : Type 0} → (f : _) → Only P (observe {r = r} {A = A} f)
  unfolding observe
  Only-observe f = record { adds = λ w sofar. sofar }

  pub Only-report : (e : Env r) (level : Level) (event : _) → Only P (report e level event)
  unfolding report
  Only-report e level event = record { adds = λ w sofar. sofar }

  pub Only-act : (a : Act) → P a → Only P (act {r = r} a)
  unfolding act
  Only-act a p = record { adds = λ w sofar. All-append P w.acts (a ∷ []) sofar (p, tt) }

  pub Only-choice :
      {A : Type 0}
      → (test : Bool) (m n : Client r A) → (test ≡ true → Only P m)
      → (test ≡ false → Only P n)
      → Only P (if test then m else n)
  Only-choice test m n on_true on_false = elim (Bool-cases test) [
    | inl e ↦ rw e (on_true e)
    | inr e ↦ rw e (on_false e)
  ]

  pub Only-bind :
      {A B : Type 0}
      → (m : Client r A) (f : A → Client r B) → Only P m
      → ((a : A) → Only P (f a))
      → Only P (m >>= f)
  unfolding ◌>>=◌
  Only-bind {A} {B} m f first rest = record {
    adds = λ w sofar. let (x, w') = m w in after x w' (first.adds w sofar);
  }
    where
      after : (x : Result A) (w' : World r) → All P w'.acts → All P (continue x f w').1.acts
      after (ok a) w' sofar = (rest a).adds w' sofar
      after (err c) w' sofar = sofar

  -- What was observed was the case at some tick.
  pub Only-observed :
      {A B : Type 0}
      → (f : ℕ → A) (k : A → Client r B) → ((t : ℕ) → Only P (k (f t)))
      → Only P (observe f >>= k)
  unfolding observe ◌>>=◌
  Only-observed f k rest = record {
    adds = λ w sofar. (rest w.tick).adds (record w { tick = suc w.tick }) sofar;
  }

  -- A call to the server touches no process.
  pub Only-call : {A : Type 0} → (e : Env r) (s : Script r A) → Only P (call e s)
  unfolding call
  Only-call {A} e s = record {
    adds = λ w sofar. let db = e.others w.tick w.db in settled (e.fault w.tick) w db (s db) sofar;
  }
    where
      settled :
          (f : Fault) (w : World r) (db : r.Db) (x : Result A × r.Db)
          → All P w.acts
          → All P (settle f w db x).1.acts
      settled healthy w db x sofar = sofar
      settled lost w db x sofar = sofar
      settled unanswered w db x sofar = sofar

  pub Only-hash_set : (e : Env r) (key : Str) (fields : Hash) → Only P (hash_set e key fields)
  unfolding hash_set
  Only-hash_set e key fields = Only-call e _

  pub Only-now : (e : Env r) → Only P (now e)
  unfolding now
  Only-now e = record { adds = λ w sofar. sofar }

  -- A predicate of every act holds of those that any action adds.
  pub Only-all : {A : Type 0} → (m : Client r A) → ((a : Act) → P a) → Only P m
  Only-all m every = record { adds = λ w sofar. all (m w).1.acts }
    where
      all : (acts : List Act) → All P acts
      all [] = tt
      all (a ∷ acts) = (every a, all acts)

pub ruleset act_rules = (
  Only-pure, Only-observe, Only-report, Only-act, Only-choice, Only-bind, Only-hash_set, Only-now,
)
