-- ===== src/Scheduler/Fits.antt =====
-- internal/scheduler/scheduler.go: the candidates of a placement are nodes that grant it.
use orchestration.Prelude.{
  ◌≡◌, refl, sym, ap, ◌∙◌, Bool, true, not, ◌||◌, some, List, [], ◌∷◌, if◌then◌else◌, arith, All,
  All-append, any, Bool-cases, inl, inr,
}
use orchestration.Prelude.Int.{ℤ, ◌+ℤ◌, ◌-ℤ◌, ltb_ℤ, IsInt64, wrap_lem}
use orchestration.Prelude.Text.{Str, str_eq, str_eq_iff, str_eq_refl, str_lt}
use orchestration.Prelude.Sort.{sort_by-All, any-sort_by}
use orchestration.Prelude.Float.{Float}
use orchestration.Redis.{Redis, RedisLaws, Hash, field?, IsExact}
use orchestration.Redis.Scan.{any-append}
use orchestration.Client.{ok}
use orchestration.Client.Calm.{concat_map}
use orchestration.Capacity.{reserve_script, reserve_ok}
use orchestration.Capacity.Reserve.{IsNode, reserve_script_lem}
use orchestration.Schema.Keys.{node_registry_key, node_status_key, node_capacity_key}
use orchestration.Schema.Fields.{field_total_cpu}
use orchestration.Schema.Codec.{NodeCapacity, map_to_node_capacity}
use orchestration.Schema.RoundTrip.{atoi-format_int}
use orchestration.Scheduler.{Candidate, has_room}
use orchestration.Scheduler.Reading.{live_if, fitting, fitting_if, kept_if, candidates_at}

concat_map-any :
    {A B : Type 0} (p : B → Bool) (q : A → Bool) (f : A → List B)
    → ((a : A) → q a ≡ true → any p (f a) ≡ true)
    → (xs : List A) → any q xs ≡ true
    → any p (concat_map f xs) ≡ true
concat_map-any p q f k [] h = h
concat_map-any p q f k (x ∷ xs) h = any-append p (f x) _ ∙ elim (Bool-cases (q x)) [
  | inl e ↦ rw (k x e) refl
  | inr e ↦ ground (arith, concat_map-any p q f k xs (rw e at h))
]

concat_map-All :
    {A B : Type 0} (P : A → Type 0) (Q : B → Type 0) (f : A → List B)
    → ((a : A) → P a → All Q (f a))
    → (xs : List A) → All P xs
    → All Q (concat_map f xs)
concat_map-All P Q f k [] h = tt
concat_map-All P Q f k (x ∷ xs) h = All-append Q (f x) _ (k x h.0) (concat_map-All P Q f k xs h.1)

-- What is left on the node covers the request in both dimensions.
abbrev pub fits : ℤ → ℤ → ℤ → ℤ → ℤ → ℤ → Bool
fits cpu mem tc tm ac am = not (ltb_ℤ (tc -ℤ ac) cpu || ltb_ℤ (tm -ℤ am) mem)

module _ (r : Redis) (cpu mem : ℤ) where
  -- The node of the candidate is alive and its script grants the reservation.
  abbrev pub Grants : r.Db → Candidate → Type 0
  Grants db c =
      (r.exists db (node_status_key c.node_id) ≡ true)
      × ((reserve_script r (node_capacity_key c.node_id) cpu mem db).0 ≡ ok reserve_ok)

module _ {r : Redis} (laws : RedisLaws r) where
  -- A node whose capacity hash is well-formed.
  pub record IsWhole (db : r.Db) (n : Str) : Type 0 where
    pub tc : ℤ
    pub tm : ℤ
    pub ac : ℤ
    pub am : ℤ
    pub node : IsNode r laws db (node_capacity_key n) tc tm ac am

  module _ (cpu mem : ℤ) where
    -- A registered node with a lease and room for the request.
    pub record HasRoom (db : r.Db) (n : Str) : Type 0 where
      pub registered : any (str_eq n) (r.smembers db node_registry_key) ≡ true
      pub alive : r.exists db (node_status_key n) ≡ true
      pub whole : IsWhole db n
      pub room : fits cpu mem whole.tc whole.tm whole.ac whole.am ≡ true

  module _ (cpu mem : ℤ) (cpu_exact : IsExact cpu) (mem_exact : IsExact mem) where
    capacity_lem :
        (db : r.Db) (n : Str) (k : IsWhole db n)
        → map_to_node_capacity (r.hgetall db (node_capacity_key n))
          ≡ ok (record {
            total_cpu = k.tc;
            total_mem = k.tm;
            allocated_cpu = k.ac;
            allocated_mem = k.am;
          })
    unfolding map_to_node_capacity
    capacity_lem db n k =
        rw
          (
            k.node.total_cpu,
            k.node.total_mem,
            k.node.allocated_cpu,
            k.node.allocated_mem,
            atoi-format_int k.tc (ground (arith, k.node.tc_exact)),
            atoi-format_int k.tm (ground (arith, k.node.tm_exact)),
            atoi-format_int k.ac (ground (arith, k.node.ac_exact)),
            atoi-format_int k.am (ground (arith, k.node.am_exact)),
          )
          refl

    sub-IsInt64 : (a b : ℤ) → IsExact a → IsExact b → IsInt64 (a -ℤ b)
    unfolding ◌-ℤ◌
    sub-IsInt64 a b h k = ground arith

    add-IsInt64 : (a b : ℤ) → IsExact a → IsExact b → IsInt64 (a +ℤ b)
    unfolding ◌+ℤ◌
    add-IsInt64 a b h k = ground arith

    has_room_lem :
        (tc tm ac am : ℤ)
        → IsExact tc
        → IsExact tm
        → IsExact ac
        → IsExact am
        → has_room cpu mem
            (record { total_cpu = tc; total_mem = tm; allocated_cpu = ac; allocated_mem = am })
          ≡ fits cpu mem tc tm ac am
    unfolding has_room
    has_room_lem tc tm ac am htc htm hac ham =
        rw
          (
            wrap_lem (tc -ℤ ac) (sub-IsInt64 tc ac htc hac),
            wrap_lem (tm -ℤ am) (sub-IsInt64 tm am htm ham),
          )
          (ground arith)

    fitting_if_lem :
        (n : Str) (h : Hash) (s : Str) (c : NodeCapacity)
        → field? field_total_cpu h ≡ some s
        → map_to_node_capacity h ≡ ok c
        → fitting_if cpu mem n h ≡ kept_if cpu mem n c
    fitting_if_lem n [] s c h k = ground (arith, h)
    fitting_if_lem n (f ∷ fields) s c h k = rw k refl

    fitting_lem :
        (db : r.Db) (n : Str) (k : IsWhole db n)
        → fitting r cpu mem n db ≡ (
            if fits cpu mem k.tc k.tm k.ac k.am
            then record {
              node_id = n;
              capacity = record {
                total_cpu = k.tc;
                total_mem = k.tm;
                allocated_cpu = k.ac;
                allocated_mem = k.am;
              };
            }
              ∷ []
            else [])
    fitting_lem db n k =
        fitting_if_lem n _ _ _ k.node.total_cpu (capacity_lem db n k)
        ∙ rw
            (has_room_lem k.tc k.tm k.ac k.am k.node.tc_exact k.node.tm_exact k.node.ac_exact
              k.node.am_exact)
            refl

    script_grants :
        (db : r.Db) (n : Str) (k : IsWhole db n)
        → fits cpu mem k.tc k.tm k.ac k.am ≡ true
        → (reserve_script r (node_capacity_key n) cpu mem db).0 ≡ ok reserve_ok
    script_grants db n k h = ground (
      arith,
      ap (λ x. x.0)
          (reserve_script_lem r laws k.node cpu mem (add-IsInt64 _ _ k.node.ac_exact cpu_exact)
            (add-IsInt64 _ _ k.node.am_exact mem_exact)),
    )

    fitting-Grants :
        (db : r.Db) (n : Str)
        → (r.exists db (node_status_key n) ≡ true) × IsWhole db n
        → All (Grants r cpu mem db) (fitting r cpu mem n db)
    fitting-Grants db n (alive, k) =
        rw (fitting_lem db n k) (elim (Bool-cases (fits cpu mem k.tc k.tm k.ac k.am)) [
          | inl e ↦ rw e ((alive, script_grants db n k e), tt)
          | inr e ↦ rw e tt
        ])

    live_if-All :
        (db : r.Db) (n : Str)
        → IsWhole db n
        → All (λ x. (r.exists db (node_status_key x) ≡ true) × IsWhole db x) (live_if r n db)
    live_if-All db n k = elim (Bool-cases (r.exists db (node_status_key n))) [
      | inl e ↦ rw e ((e, k), tt)
      | inr e ↦ rw e tt
    ]

    pub candidates-Grants :
        (fl : Float) (db : r.Db)
        → All (IsWhole db) (r.smembers db node_registry_key)
        → All (Grants r cpu mem db) (candidates_at r fl cpu mem db)
    candidates-Grants fl db h = sort_by-All _ _ _ (
        concat_map-All _ _ _ (fitting-Grants db) _
          (sort_by-All str_lt _ _ (concat_map-All _ _ _ (live_if-All db) _ h)))

    at_node : (p : Str → Bool) (n a : Str) → p n ≡ true → str_eq n a ≡ true → p a ≡ true
    at_node p n a h e = rw (sym ((str_eq_iff n a).0 e)) h

    pub candidates-exist :
        (fl : Float) (db : r.Db) (n : Str)
        → HasRoom cpu mem db n
        → any (λ c. true) (candidates_at r fl cpu mem db) ≡ true
    candidates-exist fl db n k =
        any-sort_by _ (λ c. true) _
        ∙ concat_map-any (λ c. true) (str_eq n) _
            (λ a.
              at_node (λ x. any (λ c. true) (fitting r cpu mem x db)) n a
                (rw (fitting_lem db n k.whole, k.room) refl))
            _
            (any-sort_by _ _ _
              ∙ concat_map-any _ (str_eq n) _
                  (λ a.
                    at_node (λ x. any (str_eq n) (live_if r x db)) n a
                      (rw (k.alive, str_eq_refl n) refl))
                  _ k.registered)
