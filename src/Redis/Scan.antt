-- ===== src/Redis/Scan.antt =====
-- What SCAN guarantees: a full iteration returns every matching key that exists from its start to
-- its end. The databases of its calls may differ.
use orchestration.Prelude.{
  ℕ, ◌<◌, ◌⊎◌, ◌≡◌, refl, Bool, true, ◌||◌, List, [], ◌∷◌, ◌++◌, any, All, arith,
}
use orchestration.Prelude.Text.{Str, str_eq}
use orchestration.Redis.{Redis}

module _ (r : Redis) where
  -- The keys of the calls on these databases in turn, from a cursor on.
  abbrev pub visited : List r.Db → ℕ → Str → List Str
  visited [] cursor pattern = []
  visited (db ∷ dbs) cursor pattern =
      (r.scan db cursor pattern).0 ++ visited dbs (r.scan db cursor pattern).1 pattern

  -- The last of them returns the cursor 0.
  abbrev pub Ends : List r.Db → ℕ → Str → Type 0
  Ends [] cursor pattern = cursor ≡ 0
  Ends (db ∷ dbs) cursor pattern = Ends dbs (r.scan db cursor pattern).1 pattern

  pub record ScanLaws : Type 0 where
    -- Whether a key matches a glob.
    pub matches : Str → Str → Bool
    pub scan_complete :
        (db : r.Db) (dbs : List r.Db) (pattern k : Str)
        → Ends (db ∷ dbs) 0 pattern
        → All (λ d. r.exists d k ≡ true) (db ∷ dbs)
        → matches pattern k ≡ true
        → any (str_eq k) (visited (db ∷ dbs) 0 pattern) ≡ true
    -- The calls that are left from a cursor on: each makes them fewer, while no key is added.
    pub left : r.Db → ℕ → ℕ
    pub left-scan :
        (db : r.Db) (cursor : ℕ) (pattern : Str)
        → ((r.scan db cursor pattern).1 ≡ 0)
          ⊎ (left db (r.scan db cursor pattern).1 < left db cursor)
    pub left-hset :
        (db : r.Db) (k f v : Str) (cursor : ℕ)
        → r.exists db k ≡ true
        → left (r.hset db k f v) cursor ≡ left db cursor

pub any-append :
    {A : Type 0} → (p : A → Bool) (xs ys : List A) → any p (xs ++ ys) ≡ (any p xs || any p ys)
any-append p [] ys = refl
any-append p (x ∷ xs) ys = ground (arith, any-append p xs ys)
