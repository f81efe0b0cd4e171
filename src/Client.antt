-- ===== src/Client.antt =====
-- internal/redisclient: every step of the Go code that talks to Redis. A call may fail before or
-- after the server ran the command, and other processes may change the database between any two
-- calls: both are in `Env`, over which the theorems range. So are the clock and the random source.
pub mod Calm
pub mod Idle
pub mod Keeps
pub mod Returns
pub mod Runs
pub mod Acts
pub mod Yields
pub mod Gives
use orchestration.Prelude.{
  ℕ, zero, suc, ◌≡◌, Bool, true, false, Option, none, some, List, [], ◌∷◌, ◌++◌, ◌==◌,
  if◌then◌else◌,
}
use orchestration.Prelude.Int.{ℤ}
use orchestration.Prelude.Text.{Str}
use orchestration.Redis.{Redis, Hash, hset_all, del_all}

-- What an error of the program says, by its cause.
pub data Error : Type 0 where
  unreachable : Error
  script_failed : Error
  malformed : Error
  not_found : Error
  invalid : Error
  interrupted : Error
  panicked : Error
  no_port : Error
  no_random : Error
  unusable : Error
  no_deployment : Error
  no_pod : Error
  not_written : Error
  reload_failed : Error
  timed_out : Error

pub data Result {ℓ} (A : Type ℓ) : Type ℓ where
  ok : A → Result A
  err : Error → Result A

-- `if err != nil { … }` where the code goes on in both cases.
abbrev pub handle {ℓ κ} : {A : Type ℓ} {B : Type κ} → Result A → (A → B) → (Error → B) → B
handle (ok a) f g = f a
handle (err e) f g = g e

-- What happens to one call: the reply comes, the command never arrives, or its reply is lost.
pub data Fault : Type 0 where
  healthy lost unanswered : Fault

pub data Level : Type 0 where
  info warn error : Level

-- What the program does to the processes and the files of its machine.
pub data Act : Type 0 where
  -- the executable, its environment, and the process that it became
  started : Str → List Str → ℤ → Act
  -- a signal to a process group
  terminated killed : ℤ → Act
  -- a file that a rename put in place, with its text
  installed : Str → Str → Act
  -- a command that was run, with its arguments
  ran : List Str → Act

module _ (r : Redis) where
  -- The surroundings of a process, at each tick of its calls.
  pub record Env : Type 0 where
    pub fault : ℕ → Fault
    -- what the other processes do to the database before the call
    pub others : ℕ → r.Db → r.Db
    -- time.Now().Unix()
    pub unix : ℕ → ℤ
    -- crypto/rand, in hexadecimal; `none` when it cannot be read
    pub random : ℕ → Option Str
    -- ctx.Err() != nil
    pub cancelled : ℕ → Bool
    -- how many pages a SCAN may take
    pub pages : ℕ

  pub record World : Type 0 where
    pub db : r.Db
    pub tick : ℕ
    -- what the logger was given, newest last
    pub log : List (Level × Str)
    -- what the agent did to processes, newest last
    pub acts : List Act

  abbrev pub Client : Type 0 → Type 0
  Client A = World → Result A × World

  -- A script's body, inside Redis: an error reply of a command ends it, and keeps its writes.
  abbrev pub Script : Type 0 → Type 0
  Script A = r.Db → Result A × r.Db

module _ {r : Redis} {A : Type 0} where
  unfoldable pub pure : A → Client r A
  pure a w = (ok a, w)

  unfoldable pub fail : Error → Client r A
  fail e w = (err e, w)

  unfoldable pub lift : Result A → Client r A
  lift x w = (x, w)

  -- `x, err := e` where the code goes on and looks at `err` itself
  unfoldable pub try : Client r A → Client r (Result A)
  try m w = let (x, w') = m w in (ok x, w')

module _ {r : Redis} {A B : Type 0} where
  abbrev pub continue : Result A → (A → Client r B) → Client r B
  continue (ok a) f w = f a w
  continue (err e) f w = (err e, w)

  infixl 5 ◌>>=◌ ◌>>◌
  unfoldable pub ◌>>=◌ : Client r A → (A → Client r B) → Client r B
  unfolding pure fail lift
  ◌>>=◌ m f w = let (x, w') = m w in continue x f w'

  abbrev pub ◌>>◌ : Client r A → Client r B → Client r B
  m >> k = m >>= λ _. k

module _ {r : Redis} {A B : Type 0} where
  -- A `for` loop whose body appends to a slice and may return early with an error.
  unfoldable pub collect : (A → Client r (List B)) → List A → Client r (List B)
  unfolding ◌>>=◌
  collect f [] = pure []
  collect f (x ∷ xs) = do here ← f x; rest ← collect f xs; pure (here ++ rest)

module _ {D A B : Type 0} where
  abbrev pub next_step : (D → Result B × D) → Result A × D → Result B × D
  next_step s (ok a, db) = s db
  next_step s (err e, db) = (err e, db)

  -- One command of a script, and then the rest, unless the command raises an error.
  abbrev pub followed_by : (D → Result A × D) → (D → Result B × D) → D → Result B × D
  followed_by first rest db = next_step rest (first db)

module _ {r : Redis} {A : Type 0} where
  abbrev pub settle : Fault → World r → r.Db → Result A × r.Db → Result A × World r
  settle healthy w db (x, db') = (x, record w { db = db'; tick = suc w.tick })
  settle lost w db (x, db') = (err unreachable, record w { db = db; tick = suc w.tick })
  settle unanswered w db (x, db') = (err unreachable, record w { db = db'; tick = suc w.tick })

  -- One round trip, with the command or script that the server runs in one step.
  unfoldable pub call : Env r → Script r A → Client r A
  call e s w = let db = e.others w.tick w.db in settle (e.fault w.tick) w db (s db)

module _ {r : Redis} (e : Env r) where
  unfoldable pub hash_set : Str → Hash → Client r Unit
  hash_set key fields = call e (λ db. (ok tt, hset_all r db key fields))

  unfoldable pub hash_get : Str → Client r Hash
  hash_get key = call e (λ db. (ok (r.hgetall db key), db))

  unfoldable pub set_add : Str → Str → Client r Unit
  set_add key member = call e (λ db. (ok tt, r.sadd db key member))

  unfoldable pub set_members : Str → Client r (List Str)
  set_members key = call e (λ db. (ok (r.smembers db key), db))

  unfoldable pub list_push : Str → Str → Client r Unit
  list_push key value = call e (λ db. (ok tt, r.rpush db key value))

  unfoldable pub list_range : Str → ℤ → ℤ → Client r (List Str)
  list_range key start stop = call e (λ db. (ok (r.lrange db key start stop), db))

  -- The newest entries of a stream, at most `count` of them, newest first.
  unfoldable pub stream_read_reverse : Str → ℕ → Client r (List (Str × Hash))
  stream_read_reverse key count = call e (λ db. (ok (r.xrevrange db key count), db))

  -- A round trip that asks for nothing.
  unfoldable pub ping : Client r Unit
  ping = call e (λ db. (ok tt, db))

  unfoldable pub list_trim : Str → ℤ → ℤ → Client r Unit
  list_trim key start stop = call e (λ db. (ok tt, r.ltrim db key start stop))

  unfoldable pub set_key : Str → Str → ℤ → Client r Unit
  set_key key value ttl = call e (λ db. (ok tt, r.set_ex db key value ttl))

  unfoldable pub delete_key : List Str → Client r Unit
  delete_key keys = call e (λ db. (ok tt, del_all r db keys))

  unfoldable pub key_exists : Str → Client r Bool
  key_exists key = call e (λ db. (ok (r.exists db key), db))

  unfoldable pub expire_key : Str → ℤ → Client r Unit
  expire_key key ttl = call e (λ db. (ok tt, r.expire db key ttl))

  unfoldable pub publish : Str → Str → Client r Unit
  publish channel message = call e (λ db. (ok tt, r.publish db channel message))

  unfoldable pub eval_script : {A : Type 0} → Script r A → Client r A
  eval_script s = call e s

  pub scan_page : ℕ → Str → Client r (List Str × ℕ)
  scan_page cursor pattern = call e (λ db. (ok (r.scan db cursor pattern), db))

  -- The loop ends when the server returns the cursor 0, and has `fuel` pages to get there.
  scan_loop : ℕ → ℕ → Str → List Str → Client r (List Str)
  scan_loop zero cursor pattern keys = fail unreachable
  scan_loop (suc fuel) cursor pattern keys = do
    page ← scan_page cursor pattern
    let found = keys ++ page.0
    let rest = scan_loop fuel page.1 pattern found
    if page.1 == 0 then pure found else rest

  unfoldable pub scan_keys : Str → Client r (List Str)
  unfolding scan_loop scan_page
  scan_keys pattern = scan_loop e.pages 0 pattern []

  -- time.Now().Unix()
  unfoldable pub now : Client r ℤ
  now w = (ok (e.unix w.tick), w)

  -- ctx.Err() != nil
  unfoldable pub cancelled : Client r Bool
  cancelled w = (ok (e.cancelled w.tick), w)

  -- rand.Read, encoded as hexadecimal
  unfoldable pub random_hex : Client r (Option Str)
  random_hex w = (ok (e.random w.tick), record w { tick = suc w.tick })

  -- The logger's entry; it is also written to a stream, whose failure the logger swallows.
  unfoldable pub report : Level → Str → Client r Unit
  report level event w = (ok tt, record w { log = w.log ++ (level, event) ∷ [] })

module _ {r : Redis} where
  -- A look at the machine, whose answer depends on when it is taken.
  unfoldable pub observe : {A : Type 0} → (ℕ → A) → Client r A
  observe f w = (ok (f w.tick), record w { tick = suc w.tick })

  unfoldable pub act : Act → Client r Unit
  act a w = (ok tt, record w { acts = w.acts ++ a ∷ [] })
