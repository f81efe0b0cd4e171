-- ===== src/Redis/Memory.antt =====
-- A Redis server in memory, for the concrete runs: it satisfies all of `RedisLaws`.
use orchestration.Prelude.{
  ℕ, ◌^◌, ◌≡◌, refl, subst, Bool, true, false, not, ◌&&◌, ◌||◌, Option, none, some, List, [], ◌∷◌,
  ◌++◌, ◌==◌, ltb, if◌then◌else◌, any, keep, arith, Bool-cases, inl, inr,
}
use orchestration.Prelude.Int.{ℤ, pos, negsuc, ◌+ℤ◌, IsInt64}
use orchestration.Prelude.Text.{Str, str_eq, str_eq_iff, str_eq_refl}
use orchestration.Prelude.Decimal.{format_int, scan_int, scan_int-format_int}
use orchestration.Redis.Scan.{ScanLaws, visited, any-append}
use orchestration.Redis.{Redis, RedisLaws, Hash, field?}

-- Lists under keys; a key without one has the empty list.
abbrev Table : Type 0 → Type 0
Table A = List (Str × List A)

abbrev get : {A : Type 0} → Table A → Str → List A
get [] k = []
get ((j, xs) ∷ t) k = if str_eq j k then xs else get t k

abbrev put : {A : Type 0} → Table A → Str → List A → Table A
put [] k ys = (k, ys) ∷ []
put ((j, xs) ∷ t) k ys = if str_eq j k then (j, ys) ∷ t else (j, xs) ∷ put t k ys

abbrev names : {A : Type 0} → Table A → List Str
names [] = []
names ((j, xs) ∷ t) = j ∷ names t

pub record Memory : Type 0 where
  pub hashes : Table (Str × Str)
  pub sets : Table Str
  pub lists : Table Str
  pub strings : Table Str

abbrev pub empty : Memory
empty = record { hashes = []; sets = []; lists = []; strings = [] }

abbrev put_field : Str → Str → Hash → Hash
put_field f v [] = (f, v) ∷ []
put_field f v ((g, w) ∷ h) = if str_eq g f then (f, v) ∷ h else (g, w) ∷ put_field f v h

abbrev add_member : Str → List Str → List Str
add_member m xs = if any (str_eq m) xs then xs else xs ++ m ∷ []

abbrev full : {A : Type 0} → List A → Bool
full [] = false
full (x ∷ xs) = true

abbrev some_suffix : (Str → Bool) → Str → Bool
some_suffix p [] = p []
some_suffix p (c ∷ s) = p (c ∷ s) || some_suffix p s

abbrev same_head : ℕ → (Str → Bool) → Str → Bool
same_head a p [] = false
same_head a p (c ∷ s) = a == c && p s

-- Globs with stars.
abbrev glob : Str → Str → Bool
glob [] s = not (full s)
glob (a ∷ p) s = if a == b'*' then some_suffix (glob p) s else same_head a (glob p) s

abbrev checked : ℤ → Option ℤ
checked (pos n) = if ltb n (2 ^ 63) then some (pos n) else none
checked (negsuc n) = if ltb n (2 ^ 63) then some (negsuc n) else none

abbrev field_number : Option Str → Option ℤ
field_number none = some (pos 0)
field_number (some s) = scan_int s

abbrev write_field : Memory → Str → Str → Str → Memory
write_field db k f v = record db { hashes = put db.hashes k (put_field f v (get db.hashes k)) }

abbrev increase : Memory → Str → Str → ℤ → Option ℤ → Option Memory
increase db k f d none = none
increase db k f d (some n) = elim (checked (n +ℤ d)) [
  | none ↦ none
  | some z ↦ some (write_field db k f (format_int z))
]

abbrev present : Memory → Str → Bool
present db k =
    full (get db.hashes k)
    || (full (get db.sets k) || (full (get db.lists k) || full (get db.strings k)))

abbrev all_names : Memory → List Str
all_names db = names db.hashes ++ (names db.sets ++ (names db.lists ++ names db.strings))

abbrev pub memory : Redis
memory = record {
  Db = Memory;
  hgetall = λ db k. get db.hashes k;
  exists = present;
  scan = λ db c p. (keep (λ k. present db k && glob p k) (all_names db), 0);
  smembers = λ db k. get db.sets k;
  lrange = λ db k a b. get db.lists k;
  xrevrange = λ db k n. [];
  hset = write_field;
  hincrby = λ db k f d. increase db k f d (field_number (field? f (get db.hashes k)));
  del = λ db k. record {
    hashes = put db.hashes k [];
    sets = put db.sets k [];
    lists = put db.lists k [];
    strings = put db.strings k [];
  };
  sadd = λ db k m. record db { sets = put db.sets k (add_member m (get db.sets k)) };
  srem =
      λ db k m. record db { sets = put db.sets k (keep (λ a. not (str_eq a m)) (get db.sets k)) };
  rpush = λ db k v. record db { lists = put db.lists k (get db.lists k ++ v ∷ []) };
  ltrim = λ db k a b. db;
  set_ex = λ db k v t. record db { strings = put db.strings k (v ∷ []) };
  expire = λ db k t. db;
  publish = λ db c m. db;
  tonumber = scan_int;
}

get-put :
    {A : Type 0}
    → (t : Table A) (k : Str) (ys : List A) (k' : Str)
    → get (put t k ys) k' ≡ (if str_eq k k' then ys else get t k')
get-put [] k ys k' = refl
get-put ((j, xs) ∷ t) k ys k' =
    ground (arith, str_eq_iff j k, str_eq_iff j k', str_eq_iff k k', get-put t k ys k')

full-names :
    {A : Type 0} → (t : Table A) (k : Str) → full (get t k) ≡ true → any (str_eq k) (names t) ≡ true
full-names [] k h = cc
full-names ((j, xs) ∷ t) k h = ground (arith, str_eq_iff j k, str_eq_iff k j, full-names t k)

any-kept :
    (k : Str) (p : Str → Bool) (xs : List Str)
    → p k ≡ true
    → any (str_eq k) xs ≡ true
    → any (str_eq k) (keep p xs) ≡ true
any-kept k p [] h a = cc
any-kept k p (x ∷ xs) h a = elim (Bool-cases (str_eq k x)) [
  | inl e ↦ rw (subst (λ y. p y ≡ true) ((str_eq_iff k x).0 e) h, e)
  | inr e ↦ elim (Bool-cases (p x)) [
    | inl q ↦ rw (q, e) (any-kept k p xs h (rw e at a))
    | inr q ↦ rw q (any-kept k p xs h (rw e at a))
  ]
]

field?-put_field :
    (f v g : Str) (h : Hash)
    → field? g (put_field f v h) ≡ (if str_eq f g then some v else field? g h)
field?-put_field f v g [] = refl
field?-put_field f v g ((j, w) ∷ h) =
    ground (arith, str_eq_iff j f, str_eq_iff f g, str_eq_iff j g, field?-put_field f v g h)

full-put_field : (f v : Str) (h : Hash) → full (put_field f v h) ≡ true
full-put_field f v [] = refl
full-put_field f v ((j, w) ∷ h) = ground arith

full-field : (f v : Str) (h : Hash) → field? f h ≡ some v → full h ≡ true
full-field f v [] e = cc
full-field f v ((j, w) ∷ h) e = refl

any-keep :
    (a m : Str) (xs : List Str)
    → any (str_eq a) (keep (λ b. not (str_eq b m)) xs)
      ≡ (if str_eq a m then false else any (str_eq a) xs)
any-keep a m [] = ground arith
any-keep a m (x ∷ xs) =
    ground (arith, str_eq_iff x m, str_eq_iff a m, str_eq_iff a x, any-keep a m xs)

checked_fits : (z : ℤ) → IsInt64 z → checked z ≡ some z
checked_fits (pos n) h = ground arith
checked_fits (negsuc n) h = ground arith

checked_same : (z y : ℤ) → checked z ≡ some y → y ≡ z
checked_same (pos n) y h = ground arith
checked_same (negsuc n) y h = ground arith

increase_inv :
    (db db' : Memory) (k f s : Str) (d : ℤ) (o : Option ℤ)
    → increase db k f d o ≡ some db'
    → (n : ℤ) × (o ≡ some n) × (db' ≡ write_field db k f (format_int (n +ℤ d)))
increase_inv db db' k f s d none h = cc
increase_inv db db' k f s d (some n) h = (n, refl, wrote (checked (n +ℤ d)) refl h)
  where
    wrote :
        (o : Option ℤ)
        → checked (n +ℤ d) ≡ o
        → elim o as (λ _. Option Memory) [
          | none ↦ none
          | some z ↦ some (write_field db k f (format_int z))
        ]
          ≡ some db'
        → db' ≡ write_field db k f (format_int (n +ℤ d))
    wrote none e h = cc
    wrote (some z) e h = cc (h, checked_same (n +ℤ d) z e)

pub memory-laws : RedisLaws memory
memory-laws = record {
  hget-hset = λ db k f v k' f'. ground (
    arith,
    str_eq_iff k k',
    get-put db.hashes k (put_field f v (get db.hashes k)) k',
    field?-put_field f v f' (get db.hashes k),
  );
  hget-del = λ db k k' f'. ground (arith, get-put db.hashes k [] k');
  hget-sadd = λ db s m k f. refl;
  hget-srem = λ db s m k f. refl;
  hget-rpush = λ db s m k f. refl;
  hget-publish = λ db c m k f. refl;
  exists-hset = λ db k f v k'. ground (
    arith,
    get-put db.hashes k (put_field f v (get db.hashes k)) k',
    full-put_field f v (get db.hashes k),
  );
  exists-hget = λ db k f v e. ground (arith, full-field f v (get db.hashes k) e);
  hincrby-eq_some = λ db db' k f s d e h.
      let e' : field? f (get db.hashes k) ≡ some s = e in
      increase_inv db db' k f s d (scan_int s) (rw e' at h);
  hincrby-format_int = λ db k f n d e small fits.
      ground (arith, e, scan_int-format_int n small, checked_fits (n +ℤ d) fits);
  tonumber-format_int = λ z h. scan_int-format_int z (ground arith);
  smembers-srem = λ db s m a. ground (
    arith,
    get-put db.sets s (keep (λ b. not (str_eq b m)) (get db.sets s)) s,
    str_eq_refl s,
    any-keep a m (get db.sets s),
  );
}

present-listed :
    (db : Memory) (k : Str) → present db k ≡ true → any (str_eq k) (all_names db) ≡ true
present-listed db k h =
    let p = str_eq k in
    let after_sets = names db.lists ++ names db.strings in
    ground (
      arith,
      any-append p (names db.hashes) (names db.sets ++ after_sets),
      any-append p (names db.sets) after_sets,
      any-append p (names db.lists) (names db.strings),
      full-names db.hashes k,
      full-names db.sets k,
      full-names db.lists k,
      full-names db.strings k,
    )

-- One page, with every matching key.
pub memory-scans : ScanLaws memory
memory-scans = record {
  matches = glob;
  scan_complete = λ db dbs pattern k ends here m.
      let page = keep (λ j. present db j && glob pattern j) (all_names db) in
      let found : any (str_eq k) page ≡ true =
        any-kept k (λ j. present db j && glob pattern j) (all_names db) (rw (here.0, m))
          (present-listed db k here.0) in
      ground (arith, any-append (str_eq k) page (visited memory dbs 0 pattern), found);
  left = λ db cursor. 0;
  left-scan = λ db cursor pattern. inl refl;
  left-hset = λ db k f v cursor h. refl;
}

-- No call is left after the one page.
pub memory-scans_left : (db : Memory) (cursor : ℕ) → memory-scans.left db cursor ≡ 0
unfolding memory-scans
memory-scans_left db cursor = refl
