-- ===== src/Controller/Health/Evict.antt =====
-- internal/controller/health.go: the pods that the loop of the eviction script reaches.
use orchestration.Prelude.{
  ℕ, zero, suc, ◌≡◌, ap, subst, true, false, Option, none, some, List, [], ◌∷◌, ◌++◌, ◌==◌, any,
  All, arith, Bool-cases, inl, inr,
}
use orchestration.Prelude.Text.{Str, str_eq, str_eq_iff, str_eq_refl}
use orchestration.Redis.{Redis, RedisLaws, hget}
use orchestration.Redis.Scan.{ScanLaws, visited, Ends, any-append}
use orchestration.Client.{ok}
use orchestration.Schema.Fields.{field_pod_node_id, field_pod_status}
use orchestration.Controller.Health.{is_text, mark, mark_all, mark_pages}

module _ (r : Redis) (laws : RedisLaws r) (node evicted k : Str) where
  -- The pod of key `k` stands in the database, bound to the node.
  abbrev Bound : r.Db → Type 0
  Bound db = (r.exists db k ≡ true) × (hget r db k field_pod_node_id ≡ some node)

  abbrev Evicted : r.Db → Type 0
  Evicted db = hget r db k field_pod_status ≡ some evicted

  is_text_inv : (o : Option Str) (t : Str) → is_text o t ≡ true → o ≡ some t
  is_text_inv none t h = cc
  is_text_inv (some s) t h = ap some ((str_eq_iff s t).0 h)

  mark-Bound :
      (key : Str) (db : r.Db) (n : ℕ) → Bound db → Bound (mark r node evicted key (db, n)).0
  unfolding mark
  mark-Bound key db n b = (
    ground (arith, laws.exists-hset db key field_pod_status evicted k, b.0),
    ground (arith, laws.hget-hset db key field_pod_status evicted k field_pod_node_id, b.1),
  )

  mark-Evicted :
      (key : Str) (db : r.Db) (n : ℕ) → Evicted db → Evicted (mark r node evicted key (db, n)).0
  unfolding mark
  mark-Evicted key db n b =
      ground (arith, laws.hget-hset db key field_pod_status evicted k field_pod_status, b)

  mark-hits : (db : r.Db) (n : ℕ) → Bound db → Evicted (mark r node evicted k (db, n)).0
  unfolding mark
  mark-hits db n b = ground (
    arith,
    laws.hget-hset db k field_pod_status evicted k field_pod_status,
    b.1,
    str_eq_refl node,
    str_eq_refl k,
    is_text_inv (hget r db k field_pod_status) evicted,
  )

  mark_all-Bound :
      (keys : List Str) (x : r.Db × ℕ) → Bound x.0 → Bound (mark_all r node evicted keys x).0
  unfolding mark_all
  mark_all-Bound [] x b = b
  mark_all-Bound (key ∷ keys) x b = mark_all-Bound keys _ (mark-Bound key x.0 x.1 b)

  mark_all-Evicted :
      (keys : List Str) (x : r.Db × ℕ) → Evicted x.0 → Evicted (mark_all r node evicted keys x).0
  unfolding mark_all
  mark_all-Evicted [] x b = b
  mark_all-Evicted (key ∷ keys) x b = mark_all-Evicted keys _ (mark-Evicted key x.0 x.1 b)

  mark_all-hits :
      (keys : List Str) (x : r.Db × ℕ)
      → Bound x.0
      → any (str_eq k) keys ≡ true
      → Evicted (mark_all r node evicted keys x).0
  unfolding mark_all
  mark_all-hits [] x b h = cc
  mark_all-hits (key ∷ keys) x b h = elim (Bool-cases (str_eq k key)) [
    | inl e ↦ mark_all-Evicted keys _ (
        subst (λ j. Evicted (mark r node evicted j x).0) ((str_eq_iff k key).0 e)
          (mark-hits x.0 x.1 b))
    | inr e ↦ mark_all-hits keys _ (mark-Bound key x.0 x.1 b) (rw e at h)
  ]

  -- The databases that the loop scanned, from a cursor on: their scans end, the pod stands in each,
  -- and if one of them returned it, it is evicted in the last.
  abbrev Scanned : Str → ℕ → r.Db → r.Db → Type 0
  Scanned pattern cursor db db' =
      (dbs : List r.Db) × Ends r (db ∷ dbs) cursor pattern
      × All Bound (db ∷ dbs)
      × (any (str_eq k) (visited r (db ∷ dbs) cursor pattern) ≡ true → Evicted db')
      × (Evicted db → Evicted db')

  Scanned-more :
      (pattern : Str) (cursor : ℕ) (x : r.Db × ℕ) (db' : r.Db)
      → Bound x.0
      → Scanned pattern
          (r.scan x.0 cursor pattern).1
          (mark_all r node evicted (r.scan x.0 cursor pattern).0 x).0
          db'
      → Scanned pattern cursor x.0 db'
  Scanned-more pattern cursor x db' b (dbs, ends, bound, hit, stay) =
      let keys = (r.scan x.0 cursor pattern).0 in
      let next = (mark_all r node evicted keys x).0 in
      (
        next ∷ dbs,
        ends,
        (b, bound),
        (λ h. elim (Bool-cases (any (str_eq k) keys)) [
          | inl e ↦ stay (mark_all-hits keys x b e)
          | inr e ↦ hit (in_later keys (visited r (next ∷ dbs) _ pattern) e h)
        ]),
        λ h. stay (mark_all-Evicted keys x h),
      )
    where
      in_later :
          (xs ys : List Str)
          → any (str_eq k) xs ≡ false
          → any (str_eq k) (xs ++ ys) ≡ true
          → any (str_eq k) ys ≡ true
      in_later xs ys e h = ground (arith, any-append (str_eq k) xs ys)

  Scanned-last :
      (pattern : Str) (cursor : ℕ) (x : r.Db × ℕ)
      → Bound x.0
      → (r.scan x.0 cursor pattern).1 ≡ 0
      → Scanned pattern cursor x.0 (mark_all r node evicted (r.scan x.0 cursor pattern).0 x).0
  Scanned-last pattern cursor x b e =
      let keys = (r.scan x.0 cursor pattern).0 in
      (
        [],
        e,
        (b, tt),
        (λ h. mark_all-hits keys x b (ground (arith, any-append (str_eq k) keys []))),
        λ h. mark_all-Evicted keys x h,
      )

  mark_pages-Scanned :
      (pages : ℕ) (pattern : Str) (cursor : ℕ) (x : r.Db × ℕ) (n : ℕ)
      → Bound x.0
      → (mark_pages r pages pattern node evicted cursor x).0 ≡ ok n
      → Scanned pattern cursor x.0 (mark_pages r pages pattern node evicted cursor x).1
  unfolding mark_pages
  mark_pages-Scanned zero pattern cursor x n b h = cc
  mark_pages-Scanned (suc pages) pattern cursor x n b h =
      let page = r.scan x.0 cursor pattern in
      let marked = mark_all r node evicted page.0 x in
      elim (Bool-cases (page.1 == 0)) [
        | inl e ↦ rw e (Scanned-last pattern cursor x b (ground arith))
        | inr e ↦ rw e (
            Scanned-more pattern cursor x _ b (
              mark_pages-Scanned pages pattern page.1 marked n (mark_all-Bound page.0 x b)
                (rw e at h)))
      ]

  -- When the loop of the eviction script ends without an error, every key that matches its pattern
  -- and was bound to the node when it began has the status it writes, however the server splits the
  -- keys into pages.
  pub mark_pages_complete :
      (scans : ScanLaws r) (pages : ℕ) (pattern : Str) (db : r.Db) (n : ℕ)
      → scans.matches pattern k ≡ true
      → r.exists db k ≡ true
      → hget r db k field_pod_node_id ≡ some node
      → (mark_pages r pages pattern node evicted 0 (db, 0)).0 ≡ ok n
      → hget r (mark_pages r pages pattern node evicted 0 (db, 0)).1 k field_pod_status
        ≡ some evicted
  mark_pages_complete scans pages pattern db n m x b h =
      let run = mark_pages-Scanned pages pattern 0 (db, 0) n (x, b) h in
      run.3 (scans.scan_complete db run.0 pattern k run.1 (exist (db ∷ run.0) run.2) m)
    where
      exist : (dbs : List r.Db) → All Bound dbs → All (λ d. r.exists d k ≡ true) dbs
      exist [] a = tt
      exist (d ∷ dbs) a = (a.0.0, exist dbs a.1)
