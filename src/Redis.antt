-- ===== src/Redis.antt =====
-- What the program relies on of its Redis server. The server is not part of the repository: its
-- state and its commands are the fields of `Redis`, and what its documentation says of them, as far
-- as the program relies on it, is `RedisLaws`. `Redis/Memory.antt` is a server that satisfies them.
pub mod Memory
pub mod Scan
use orchestration.Prelude.{
  ℕ, ◌^◌, ◌≤◌, ◌≡◌, Bool, true, false, ◌&&◌, ◌||◌, Option, none, some, List, [], ◌∷◌, if◌then◌else◌,
  any,
}
use orchestration.Prelude.Int.{ℤ, pos, pos_part, neg_part, ◌+ℤ◌, IsInt64}
use orchestration.Prelude.Text.{Str, str_eq}
use orchestration.Prelude.Decimal.{format_int}

-- A hash as HGETALL returns it.
abbrev pub Hash : Type 0
Hash = List (Str × Str)

-- The value of a field, if the hash has it.
abbrev pub field? : Str → Hash → Option Str
field? f [] = none
field? f ((g, v) ∷ h) = if str_eq g f then some v else field? f h

-- Integers that a double, and so a Lua number, holds exactly.
abbrev pub IsExact : ℤ → Type 0
IsExact z = (pos_part z ≤ 2 ^ 53) × (neg_part z ≤ 2 ^ 53)

pub record Redis : Type 1 where
  pub Db : Type 0
  -- reads
  pub hgetall : Db → Str → Hash
  pub exists : Db → Str → Bool
  -- one page of a SCAN with MATCH: the keys, and the next cursor; 0 ends the iteration
  pub scan : Db → ℕ → Str → List Str × ℕ
  pub smembers : Db → Str → List Str
  pub lrange : Db → Str → ℤ → ℤ → List Str
  -- XREVRANGE + - COUNT n: the ids and the fields of a stream's last entries, newest first
  pub xrevrange : Db → Str → ℕ → List (Str × Hash)
  -- writes; `hincrby` fails on a value that is no integer
  pub hset : Db → Str → Str → Str → Db
  pub hincrby : Db → Str → Str → ℤ → Option Db
  pub del : Db → Str → Db
  pub sadd : Db → Str → Str → Db
  pub srem : Db → Str → Str → Db
  pub rpush : Db → Str → Str → Db
  pub ltrim : Db → Str → ℤ → ℤ → Db
  pub set_ex : Db → Str → Str → ℤ → Db
  pub expire : Db → Str → ℤ → Db
  pub publish : Db → Str → Str → Db
  -- Lua's `tonumber` on a field's text, where it is an integer
  pub tonumber : Str → Option ℤ

module _ (r : Redis) where
  abbrev pub hget : r.Db → Str → Str → Option Str
  hget db key f = field? f (r.hgetall db key)

  -- HSET with several fields sets them in turn.
  abbrev pub hset_all : r.Db → Str → Hash → r.Db
  hset_all db key [] = db
  hset_all db key ((f, v) ∷ h) = hset_all (r.hset db key f v) key h

  -- DEL with several keys deletes them in turn.
  abbrev pub del_all : r.Db → List Str → r.Db
  del_all db [] = db
  del_all db (k ∷ ks) = del_all (r.del db k) ks

  pub record RedisLaws : Type 0 where
    pub hget-hset :
        (db : r.Db) (k f v k' f' : Str)
        → hget (r.hset db k f v) k' f'
          ≡ (if str_eq k k' && str_eq f f' then some v else hget db k' f')
    pub hget-del :
        (db : r.Db) (k k' f' : Str)
        → hget (r.del db k) k' f' ≡ (if str_eq k k' then none else hget db k' f')
    pub hget-sadd : (db : r.Db) (s m k f : Str) → hget (r.sadd db s m) k f ≡ hget db k f
    pub hget-srem : (db : r.Db) (s m k f : Str) → hget (r.srem db s m) k f ≡ hget db k f
    pub hget-rpush : (db : r.Db) (s m k f : Str) → hget (r.rpush db s m) k f ≡ hget db k f
    pub hget-publish : (db : r.Db) (c m k f : Str) → hget (r.publish db c m) k f ≡ hget db k f
    pub exists-hset :
        (db : r.Db) (k f v k' : Str)
        → r.exists (r.hset db k f v) k' ≡ (str_eq k k' || r.exists db k')
    -- A hash with a field exists.
    pub exists-hget : (db : r.Db) (k f v : Str) → hget db k f ≡ some v → r.exists db k ≡ true
    -- HINCRBY of an integer field that succeeds adds to the number that the field holds.
    pub hincrby-eq_some :
        (db db' : r.Db) (k f s : Str) (d : ℤ)
        → hget db k f ≡ some s
        → r.hincrby db k f d ≡ some db'
        → (n : ℤ) × (r.tonumber s ≡ some n) × (db' ≡ r.hset db k f (format_int (n +ℤ d)))
    -- It succeeds on a number in decimal, if the sum fits 64 bits.
    pub hincrby-format_int :
        (db : r.Db) (k f : Str) (n d : ℤ)
        → hget db k f ≡ some (format_int n)
        → IsInt64 n
        → IsInt64 (n +ℤ d)
        → r.hincrby db k f d ≡ some (r.hset db k f (format_int (n +ℤ d)))
    pub tonumber-format_int : (z : ℤ) → IsExact z → r.tonumber (format_int z) ≡ some z
    pub smembers-srem :
        (db : r.Db) (s m a : Str)
        → any (str_eq a) (r.smembers (r.srem db s m) s)
          ≡ (if str_eq a m then false else any (str_eq a) (r.smembers db s))
