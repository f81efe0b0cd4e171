-- ===== src/Capacity/Safe.antt =====
-- internal/capacity/capacity.go: the invariant that in every capacity hash the allocation stays
-- between zero and the total, and the single writes of the program.
use orchestration.Prelude.{
  ◌^◌, ◌≡◌, refl, subst, Bool, false, ◌&&◌, ◌||◌, inl, inr, Option, none, some, List, [], ◌∷◌,
  if◌then◌else◌, Bool-cases, arith, All,
}
use orchestration.Prelude.Int.{ℤ, pos, negsuc, ◌≤ℤ◌}
use orchestration.Prelude.Text.{Str, str_eq, str_eq_iff}
use orchestration.Prelude.Decimal.{format_int}
use orchestration.Redis.{Redis, RedisLaws, Hash, IsExact, hget, hset_all, del_all}
use orchestration.Client.{Env, hash_set, list_push, set_add, publish, delete_key}
use orchestration.Client.Keeps.{Keeps, Stable, Keeps-call}
use orchestration.Capacity.{number_at}
use orchestration.Schema.Fields.{
  field_total_cpu, field_total_mem, field_allocated_cpu, field_allocated_mem,
}

-- What a total and an allocation may be, where they are readable.
abbrev pub Band : Option ℤ → Option ℤ → Type 0
Band (some t) (some a) = (pos 0 ≤ℤ a) × (a ≤ℤ t) × (t ≤ℤ pos (2 ^ 53))
Band (some t) none = (pos 0 ≤ℤ t) × (t ≤ℤ pos (2 ^ 53))
Band none (some a) = (pos 0 ≤ℤ a) × (a ≤ℤ pos (2 ^ 53))
Band none none = Unit {0}

-- A number in its band is one that a Lua number holds.
pub Band-IsExact : (t : Option ℤ) (z : ℤ) → Band t (some z) → IsExact z
Band-IsExact none (pos n) h = ground arith
Band-IsExact none (negsuc n) h = ground arith
Band-IsExact (some (pos m)) (pos n) h = ground arith
Band-IsExact (some (pos m)) (negsuc n) h = ground arith
Band-IsExact (some (negsuc m)) (pos n) h = ground arith
Band-IsExact (some (negsuc m)) (negsuc n) h = ground arith

module _ (r : Redis) where
  abbrev pub IsSafeIn : Str → Str → r.Db → Type 0
  IsSafeIn total alloc db = (key : Str) → Band (number_at r db key total) (number_at r db key alloc)

  -- No hash advertises more than it has, in CPU or in memory.
  pub record IsSafe (db : r.Db) : Type 0 where
    pub cpu : IsSafeIn field_total_cpu field_allocated_cpu db
    pub mem : IsSafeIn field_total_mem field_allocated_mem db

  -- A field that is no part of a node's capacity.
  abbrev pub is_capacity_field : Str → Bool
  is_capacity_field f =
      str_eq f field_total_cpu
      || (str_eq f field_total_mem
          || (str_eq f field_allocated_cpu || str_eq f field_allocated_mem))

  abbrev pub Avoids : Hash → Type 0
  Avoids h = All (λ (p : Str × Str). is_capacity_field p.0 ≡ false) h

module _ (r : Redis) (laws : RedisLaws r) where
  pub number_at-hset :
      (db : r.Db) (k f v k' f' : Str)
      → number_at r (r.hset db k f v) k' f'
        ≡ (if str_eq k k' && str_eq f f' then r.tonumber v else number_at r db k' f')
  number_at-hset db k f v k' f' = ground (arith, laws.hget-hset db k f v k' f')

  pub number_at-hset_ne :
      (db : r.Db) (k f v k' f' : Str)
      → str_eq f f' ≡ false
      → number_at r (r.hset db k f v) k' f' ≡ number_at r db k' f'
  number_at-hset_ne db k f v k' f' ne = rw (number_at-hset db k f v k' f', ne) (ground arith)

  number_at-del :
      (db : r.Db) (k k' f' : Str)
      → number_at r (r.del db k) k' f' ≡ (if str_eq k k' then none else number_at r db k' f')
  number_at-del db k k' f' = ground (arith, laws.hget-del db k k' f')

  -- Writing an allocation that fits keeps the dimension safe.
  pub hset-alloc-IsSafeIn :
      (total alloc : Str) (db : r.Db) (k : Str) (z : ℤ)
      → str_eq alloc total ≡ false
      → IsSafeIn r total alloc db
      → Band (number_at r db k total) (some z)
      → IsSafeIn r total alloc (r.hset db k alloc (format_int z))
  hset-alloc-IsSafeIn total alloc db k z ne h b key =
      rw
        (
          number_at-hset db k alloc (format_int z) key total,
          number_at-hset db k alloc (format_int z) key alloc,
        )
        (elim (Bool-cases (str_eq k key)) [
          | inl e ↦
              let same : k ≡ key = (str_eq_iff k key).0 e in
              rw
                (
                  e,
                  ne,
                  (str_eq_iff alloc alloc).1 refl,
                  laws.tonumber-format_int z (Band-IsExact (number_at r db k total) z b),
                )
                (subst (λ j. Band (number_at r db j total) (some z)) same b)
          | inr e ↦ rw e (h key)
        ])

  -- Writing a field of no capacity keeps it.
  pub hset-other-IsSafeIn :
      (total alloc : Str) (db : r.Db) (k f v : Str)
      → str_eq f total ≡ false
      → str_eq f alloc ≡ false
      → IsSafeIn r total alloc db
      → IsSafeIn r total alloc (r.hset db k f v)
  hset-other-IsSafeIn total alloc db k f v nt na h key =
      rw (number_at-hset db k f v key total, number_at-hset db k f v key alloc, nt, na)
        (elim (Bool-cases (str_eq k key)) [ inl e ↦ rw e (h key) | inr e ↦ rw e (h key) ])

  pub hset-IsSafe :
      (db : r.Db) (k f v : Str)
      → is_capacity_field r f ≡ false
      → IsSafe r db
      → IsSafe r (r.hset db k f v)
  hset-IsSafe db k f v a h = record {
    cpu =
        hset-other-IsSafeIn field_total_cpu field_allocated_cpu db k f v (ground arith)
          (ground arith) h.cpu;
    mem =
        hset-other-IsSafeIn field_total_mem field_allocated_mem db k f v (ground arith)
          (ground arith) h.mem;
  }

  pub hset_all-IsSafe :
      (db : r.Db) (k : Str) (h : Hash) → Avoids r h → IsSafe r db → IsSafe r (hset_all r db k h)
  hset_all-IsSafe db k [] a s = s
  hset_all-IsSafe db k ((f, v) ∷ h) a s =
      hset_all-IsSafe (r.hset db k f v) k h a.1 (hset-IsSafe db k f v a.0 s)

  -- A deleted hash advertises nothing.
  del-IsSafeIn :
      (total alloc : Str) (db : r.Db) (k : Str)
      → IsSafeIn r total alloc db
      → IsSafeIn r total alloc (r.del db k)
  del-IsSafeIn total alloc db k h key =
      rw (number_at-del db k key total, number_at-del db k key alloc)
        (elim (Bool-cases (str_eq k key)) [ inl e ↦ rw e tt | inr e ↦ rw e (h key) ])

  pub del_all-IsSafe : (db : r.Db) (ks : List Str) → IsSafe r db → IsSafe r (del_all r db ks)
  del_all-IsSafe db [] h = h
  del_all-IsSafe db (k ∷ ks) h = del_all-IsSafe (r.del db k) ks (record {
    cpu = del-IsSafeIn field_total_cpu field_allocated_cpu db k h.cpu;
    mem = del-IsSafeIn field_total_mem field_allocated_mem db k h.mem;
  })

  -- A write that leaves every hash as it was keeps it.
  pub frame-IsSafe :
      (db db' : r.Db) → ((k f : Str) → hget r db' k f ≡ hget r db k f) → IsSafe r db → IsSafe r db'
  frame-IsSafe db db' same h = record {
    cpu = λ key. rw (same key field_total_cpu, same key field_allocated_cpu) (h.cpu key);
    mem = λ key. rw (same key field_total_mem, same key field_allocated_mem) (h.mem key);
  }

  module _ (e : Env r) (st : Stable e (IsSafe r)) where
    pub Keeps-hash_set :
        (key : Str) (fields : Hash) → Avoids r fields → Keeps (IsSafe r) (hash_set e key fields)
    unfolding hash_set
    Keeps-hash_set key fields a =
        Keeps-call e _ st (record { at = λ db h. hset_all-IsSafe db key fields a h })

    pub Keeps-list_push : (key value : Str) → Keeps (IsSafe r) (list_push e key value)
    unfolding list_push
    Keeps-list_push key value =
        Keeps-call e _ st
          (record { at = λ db h. frame-IsSafe db _ (λ k f. laws.hget-rpush db key value k f) h })

    pub Keeps-set_add : (key member : Str) → Keeps (IsSafe r) (set_add e key member)
    unfolding set_add
    Keeps-set_add key member =
        Keeps-call e _ st
          (record { at = λ db h. frame-IsSafe db _ (λ k f. laws.hget-sadd db key member k f) h })

    pub Keeps-publish : (channel message : Str) → Keeps (IsSafe r) (publish e channel message)
    unfolding publish
    Keeps-publish channel message = Keeps-call e _ st (record {
      at = λ db h. frame-IsSafe db _ (λ k f. laws.hget-publish db channel message k f) h;
    })

    pub Keeps-delete_key : (keys : List Str) → Keeps (IsSafe r) (delete_key e keys)
    unfolding delete_key
    Keeps-delete_key keys = Keeps-call e _ st (record { at = λ db h. del_all-IsSafe db keys h })
