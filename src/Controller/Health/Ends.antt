-- ===== src/Controller/Health/Ends.antt =====
-- internal/controller/health.go: the loop of the eviction script and its end.
use orchestration.Prelude.{
  ℕ, zero, suc, ◌<◌, ◌≡◌, refl, ◌∙◌, true, Option, none, some, List, [], ◌∷◌, ◌==◌, arith,
  Bool-cases, inl, inr,
}
use orchestration.Prelude.Text.{Str}
use orchestration.Redis.{Redis, RedisLaws, hget}
use orchestration.Redis.Scan.{ScanLaws}
use orchestration.Client.{Result, ok, err}
use orchestration.Schema.Fields.{field_pod_node_id, field_pod_status}
use orchestration.Controller.Health.{is_text, mark, mark_all, mark_pages, evict_script, close}
use orchestration.Controller.Health.Frame.{Evicts, evict_script-Evicts}

module _ (r : Redis) (laws : RedisLaws r) (scans : ScanLaws r) (node evicted : Str) where
  is_text-exists :
      (key : Str) (db : r.Db)
      → is_text (hget r db key field_pod_node_id) node ≡ true
      → r.exists db key ≡ true
  is_text-exists key db h = found (hget r db key field_pod_node_id) refl h
    where
      found :
          (o : Option Str)
          → hget r db key field_pod_node_id ≡ o
          → is_text o node ≡ true
          → r.exists db key ≡ true
      found none e h = cc
      found (some v) e h = laws.exists-hget db key field_pod_node_id v e

  -- Marking adds no key.
  mark-left :
      (key : Str) (db : r.Db) (n cursor : ℕ)
      → scans.left (mark r node evicted key (db, n)).0 cursor ≡ scans.left db cursor
  unfolding mark
  mark-left key db n cursor = elim (Bool-cases (is_text (hget r db key field_pod_node_id) node)) [
    | inl e ↦
        ground
          (arith, scans.left-hset db key field_pod_status evicted cursor, is_text-exists key db e)
    | inr e ↦ ground (arith, e)
  ]

  mark_all-left :
      (keys : List Str) (x : r.Db × ℕ) (cursor : ℕ)
      → scans.left (mark_all r node evicted keys x).0 cursor ≡ scans.left x.0 cursor
  unfolding mark_all
  mark_all-left [] x cursor = refl
  mark_all-left (key ∷ keys) x cursor =
      mark_all-left keys (mark r node evicted key x) cursor ∙ mark-left key x.0 x.1 cursor

  abbrev Succeeds : Result ℕ × r.Db → Type 0
  Succeeds x = (n : ℕ) × (x.0 ≡ ok n)

  mark_pages-Succeeds :
      (pages : ℕ) (pattern : Str) (cursor : ℕ) (x : r.Db × ℕ)
      → scans.left x.0 cursor < pages
      → Succeeds (mark_pages r pages pattern node evicted cursor x)
  unfolding mark_pages
  mark_pages-Succeeds zero pattern cursor x h = absurd (omega arith)
  mark_pages-Succeeds (suc pages) pattern cursor x h =
      let page = r.scan x.0 cursor pattern in
      let marked = mark_all r node evicted page.0 x in
      elim (Bool-cases (page.1 == 0)) [
        | inl e ↦ rw e (marked.1, refl)
        | inr e ↦ rw e (
            mark_pages-Succeeds pages pattern page.1 marked (
              rw (mark_all-left page.0 x page.1)
                (ground (arith, scans.left-scan x.0 cursor pattern, e))))
      ]

  evict_script-Succeeds :
      (pages : ℕ) (key registry pattern : Str) (db : r.Db)
      → scans.left db 0 < pages
      → Succeeds (evict_script r pages key registry node pattern evicted db)
  unfolding evict_script
  evict_script-Succeeds pages key registry pattern db h =
      closed (mark_pages r pages pattern node evicted 0 (db, 0))
        (mark_pages-Succeeds pages pattern 0 (db, 0) h)
    where
      closed : (x : Result ℕ × r.Db) → Succeeds x → Succeeds (close r key registry node x)
      closed (err c, d) (n, e) = absurd (clash c n e)
        where
          clash : (c : _) (n : ℕ) → err c ≡ ok n → ⊥
          clash c n e = cc
      closed (ok m, d) h = (m, refl)

  -- With more pages than the server says are left, the eviction script returns a count, and leaves
  -- every pod that was bound to the node marked, the node out of the registry, its capacity hash, if
  -- it has one, without allocations, and every field of a hash of another node as it was.
  pub evict_script_lem :
      (pages : ℕ) (key registry pattern : Str) (db : r.Db)
      → scans.left db 0 < pages
      → let run = evict_script r pages key registry node pattern evicted db in
        ((n : ℕ) × (run.0 ≡ ok n)) × Evicts r laws node evicted scans key registry pattern db run.1
  evict_script_lem pages key registry pattern db h =
      let done = evict_script-Succeeds pages key registry pattern db h in
      (
        done,
        evict_script-Evicts r laws node evicted scans key registry pattern pages db done.0 done.1,
      )
