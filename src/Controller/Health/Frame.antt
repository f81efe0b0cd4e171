-- ===== src/Controller/Health/Frame.antt =====
-- internal/controller/health.go: the database before and after the eviction script.
use orchestration.Prelude.{
  ℕ, zero, suc, ◌≡◌, refl, sym, ap, ◌∙◌, subst, Bool, true, false, not, ◌&&◌, ◌||◌, some, List, [],
  ◌∷◌, ◌==◌, if◌then◌else◌, any, arith, Bool-cases, ◌⊎◌, inl, inr,
}
use orchestration.Prelude.Int.{pos}
use orchestration.Prelude.Text.{Str, str_eq, str_eq_iff, str_eq_refl}
use orchestration.Prelude.Decimal.{format_int}
use orchestration.Redis.{Redis, RedisLaws, hget}
use orchestration.Redis.Scan.{ScanLaws}
use orchestration.Client.{Result, ok, err}
use orchestration.Schema.Fields.{
  field_pod_node_id, field_pod_status, field_allocated_cpu, field_allocated_mem,
}
use orchestration.Controller.Health.{
  is_text, mark, mark_all, mark_pages, zero_allocations, evict_script, close,
}
use orchestration.Controller.Health.Evict.{mark_pages_complete}

module _ (r : Redis) (laws : RedisLaws r) (node evicted : Str) where
  -- A pod of another node; `false` for a hash with no node at all.
  abbrev Foreign : Str → r.Db → Type 0
  Foreign k db = is_text (hget r db k field_pod_node_id) node ≡ false

  -- The field is none of those that the loop writes there.
  abbrev Spared : Str → Str → r.Db → Type 0
  Spared k f db = (str_eq field_pod_status f ≡ false) ⊎ Foreign k db

  -- What a step of the loop leaves as it was.
  record Kept (k f : Str) (db db' : r.Db) : Type 0 where
    field_kept : hget r db' k f ≡ hget r db k f
    spared : Spared k f db'
    exists_kept : r.exists db k ≡ true → r.exists db' k ≡ true

  Kept-refl : (k f : Str) (db : r.Db) → Spared k f db → Kept k f db db
  Kept-refl k f db s = record { field_kept = refl; spared = s; exists_kept = λ h. h }

  Kept-trans : (k f : Str) (a b c : r.Db) → Kept k f a b → Kept k f b c → Kept k f a c
  Kept-trans k f a b c p q = record {
    field_kept = q.field_kept ∙ p.field_kept;
    spared = q.spared;
    exists_kept = λ h. q.exists_kept (p.exists_kept h);
  }

  -- Whether the body of the loop writes to a key.
  abbrev hit : Str → r.Db → Bool
  hit key db =
      is_text (hget r db key field_pod_node_id) node
      && not (is_text (hget r db key field_pod_status) evicted)

  hget-mark :
      (k f key : Str) (db : r.Db) (n : ℕ)
      → hget r (mark r node evicted key (db, n)).0 k f ≡ (
          if hit key db && (str_eq key k && str_eq field_pod_status f)
          then some evicted
          else hget r db k f)
  unfolding mark
  hget-mark k f key db n = ground (arith, laws.hget-hset db key field_pod_status evicted k f)

  mark-exists :
      (k key : Str) (db : r.Db) (n : ℕ)
      → r.exists db k ≡ true
      → r.exists (mark r node evicted key (db, n)).0 k ≡ true
  unfolding mark
  mark-exists k key db n h = ground (arith, laws.exists-hset db key field_pod_status evicted k, h)

  -- The loop writes to no foreign key.
  missed : (k key : Str) (db : r.Db) → Foreign k db → (hit key db && str_eq key k) ≡ false
  missed k key db h = elim (Bool-cases (str_eq key k)) [
    | inr e ↦ ground (arith, e)
    | inl e ↦
        let same : key ≡ k = (str_eq_iff key k).0 e in
        rw (subst (λ j. is_text (hget r db j field_pod_node_id) node ≡ false) (sym same) h)
  ]

  mark-Kept :
      (k f key : Str) (db : r.Db) (n : ℕ)
      → Spared k f db
      → Kept k f db (mark r node evicted key (db, n)).0
  mark-Kept k f key db n (inl other) = record {
    field_kept = rw (hget-mark k f key db n) (ground (arith, other));
    spared = inl other;
    exists_kept = mark-exists k key db n;
  }
  mark-Kept k f key db n (inr foreign) =
      let quiet = missed k key db foreign in
      record {
        field_kept = rw (hget-mark k f key db n) (ground (arith, quiet));
        spared = inr (rw (hget-mark k field_pod_node_id key db n) (ground (arith, foreign)));
        exists_kept = mark-exists k key db n;
      }

  mark_all-Kept :
      (k f : Str) (keys : List Str) (x : r.Db × ℕ)
      → Spared k f x.0
      → Kept k f x.0 (mark_all r node evicted keys x).0
  unfolding mark_all
  mark_all-Kept k f [] x s = Kept-refl k f x.0 s
  mark_all-Kept k f (key ∷ keys) x s =
      let step = mark-Kept k f key x.0 x.1 s in
      Kept-trans k f x.0 _ _ step (mark_all-Kept k f keys (mark r node evicted key x) (step.spared))

  mark_pages-Kept :
      (k f : Str) (pages : ℕ) (pattern : Str) (cursor : ℕ) (x : r.Db × ℕ)
      → Spared k f x.0
      → Kept k f x.0 (mark_pages r pages pattern node evicted cursor x).1
  unfolding mark_pages
  mark_pages-Kept k f zero pattern cursor x s = Kept-refl k f x.0 s
  mark_pages-Kept k f (suc pages) pattern cursor x s =
      let page = r.scan x.0 cursor pattern in
      let step = mark_all-Kept k f page.0 x s in
      elim (Bool-cases (page.1 == 0)) [
        | inl e ↦ rw e step
        | inr e ↦ rw e (
            Kept-trans k f x.0 _ _ step (
              mark_pages-Kept k f pages pattern page.1 (mark_all r node evicted page.0 x)
                (step.spared)))
      ]

  hget-zero_allocations :
      (key k f : Str) (db : r.Db)
      → hget r (zero_allocations r key db) k f ≡ (
          if r.exists db key
            && (str_eq key k && (str_eq field_allocated_cpu f || str_eq field_allocated_mem f))
          then some (format_int (pos 0))
          else hget r db k f)
  unfolding zero_allocations
  hget-zero_allocations key k f db =
      let zero_text = format_int (pos 0) in
      let first = r.hset db key field_allocated_cpu zero_text in
      ground (
        arith,
        laws.hget-hset first key field_allocated_mem zero_text k f,
        laws.hget-hset db key field_allocated_cpu zero_text k f,
      )

  module _ (scans : ScanLaws r) (key registry pattern : Str) where
    -- What holds of the database that the script leaves, against the one it found.
    pub record Evicts (db db' : r.Db) : Type 0 where
      -- every pod of the node is marked
      pub marked :
          (k : Str)
          → scans.matches pattern k ≡ true
          → r.exists db k ≡ true
          → hget r db k field_pod_node_id ≡ some node
          → hget r db' k field_pod_status ≡ some evicted
      -- the node is not registered
      pub unregistered : any (str_eq node) (r.smembers db' registry) ≡ false
      -- and holds nothing
      pub released_cpu :
          r.exists db key ≡ true → hget r db' key field_allocated_cpu ≡ some (format_int (pos 0))
      pub released_mem :
          r.exists db key ≡ true → hget r db' key field_allocated_mem ≡ some (format_int (pos 0))
      -- no other hash changes
      pub frame : (k f : Str) → str_eq key k ≡ false → Foreign k db → hget r db' k f ≡ hget r db k f

    after_loop :
        (k f : Str) (mid : r.Db)
        → hget r (r.srem (zero_allocations r key mid) registry node) k f ≡ (
            if r.exists mid key
              && (str_eq key k && (str_eq field_allocated_cpu f || str_eq field_allocated_mem f))
            then some (format_int (pos 0))
            else hget r mid k f)
    after_loop k f mid =
        laws.hget-srem (zero_allocations r key mid) registry node k f
        ∙ hget-zero_allocations key k f mid

    Evicts-close :
        (pages : ℕ) (db : r.Db) (n : ℕ)
        → (mark_pages r pages pattern node evicted 0 (db, 0)).0 ≡ ok n
        → Evicts db (
            r.srem
              (zero_allocations r key (mark_pages r pages pattern node evicted 0 (db, 0)).1)
              registry
              node)
    Evicts-close pages db n h =
        let mid = (mark_pages r pages pattern node evicted 0 (db, 0)).1 in
        let there : r.exists db key ≡ true → r.exists mid key ≡ true =
          (mark_pages-Kept key field_allocated_cpu pages pattern 0 (db, 0)
            (inl refl)).exists_kept in
        record {
          marked = λ k m x b. rw (after_loop k field_pod_status mid) (
              ground (
                arith,
                mark_pages_complete r laws node evicted k scans pages pattern db n m x b h,
              ));
          unregistered = rw (
            laws.smembers-srem (zero_allocations r key mid) registry node node,
            str_eq_refl node,
          );
          released_cpu = λ x. rw (after_loop key field_allocated_cpu mid, there x, str_eq_refl key);
          released_mem = λ x. rw (after_loop key field_allocated_mem mid, there x, str_eq_refl key);
          frame = λ k f ne s.
              rw (after_loop k f mid, ne)
                (ground (arith, (mark_pages-Kept k f pages pattern 0 (db, 0) (inr s)).field_kept));
        }

    -- When the eviction script returns, every pod that was bound to the node is marked, the node is
    -- out of the registry, its capacity hash, if it has one, allocates nothing, and no hash of
    -- another node changed in any field.
    pub evict_script-Evicts :
        (pages : ℕ) (db : r.Db) (n : ℕ)
        → (evict_script r pages key registry node pattern evicted db).0 ≡ ok n
        → Evicts db (evict_script r pages key registry node pattern evicted db).1
    unfolding evict_script
    evict_script-Evicts pages db n h =
        closed (mark_pages r pages pattern node evicted 0 (db, 0)) refl h
      where
        closed :
            (x : Result ℕ × r.Db)
            → mark_pages r pages pattern node evicted 0 (db, 0) ≡ x
            → (close r key registry node x).0 ≡ ok n
            → Evicts db (close r key registry node x).1
        closed (err c, d) e h = cc
        closed (ok m, d) e h =
            rw (sym (ap (λ y. y.1) e)) (Evicts-close pages db m (ap (λ y. y.0) e))
