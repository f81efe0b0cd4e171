-- ===== src/Capacity/Reserve.antt =====
-- internal/capacity/capacity.go: the reservation script, its outcomes, and the invariant of
-- `Capacity.Safe`.
use orchestration.Prelude.{
  ◌≡◌, refl, ◌∙◌, true, false, ◌||◌, ◌⊎◌, inl, inr, Option, none, some, if◌then◌else◌, Bool-cases,
  Option-cases, arith,
}
use orchestration.Prelude.Int.{
  ℤ, pos, ◌≤ℤ◌, ◌+ℤ◌, ◌-ℤ◌, ltb_ℤ, int_laws, +ℤ_parts, -ℤ_parts, IsInt64,
}
use orchestration.Prelude.Text.{Str}
use orchestration.Prelude.Decimal.{format_int}
use orchestration.Redis.{Redis, RedisLaws, hget, IsExact}
use orchestration.Client.{ok, err, script_failed, Env, followed_by}
use orchestration.Client.Keeps.{Keeps, KeepsIn, Stable, Keeps-eval_script, flow_rules}
use orchestration.Capacity.{
  read_number, number_at, reserve_script, reserve_read, incr_field, reserve, reserve_ok,
  reserve_no_headroom, reserve_outcome,
}
use orchestration.Capacity.Safe.{
  Band, IsSafe, hset-alloc-IsSafeIn, hset-other-IsSafeIn, number_at-hset_ne,
}
use orchestration.Schema.Keys.{node_capacity_key}
use orchestration.Schema.Fields.{
  field_total_cpu, field_total_mem, field_allocated_cpu, field_allocated_mem,
}

-- The request fits what is left.
fits_iff :
    (total alloc request : ℤ) → ltb_ℤ (total -ℤ alloc) request ≡ false → alloc +ℤ request ≤ℤ total
fits_iff total alloc request h = ground (arith, -ℤ_parts total alloc, +ℤ_parts alloc request)

grown_nonneg : (alloc request : ℤ) → pos 0 ≤ℤ alloc → pos 0 ≤ℤ request → pos 0 ≤ℤ alloc +ℤ request
grown_nonneg alloc request h k = omega int_laws

read_some :
    (r : Redis) (o : Option Str) (z : ℤ)
    → read_number r o ≡ some z
    → (s : Str) × (o ≡ some s) × (r.tonumber s ≡ some z)
read_some r none z h = cc
read_some r (some s) z h = (s, refl, h)

module _ (r : Redis) (laws : RedisLaws r) where
  -- A successful increment of a readable field writes the sum.
  pub incr_field_writes :
      (key f : Str) (d a : ℤ) (db : r.Db)
      → number_at r db key f ≡ some a
      → ((incr_field r key f d db ≡ (err script_failed, db)))
        ⊎ (incr_field r key f d db ≡ (ok tt, r.hset db key f (format_int (a +ℤ d))))
  unfolding incr_field
  incr_field_writes key f d a db h = elim (Option-cases (r.hincrby db key f d)) [
    | inl e ↦ inl (rw (e, incr_field))
    | inr (db', e) ↦
        let (s, there, value) = read_some r (hget r db key f) a h in
        let (n, read, wrote) = laws.hincrby-eq_some db db' key f s d there e in
        let same : n ≡ a = cc (read, value) in inr (rw (e, incr_field) (rw (wrote, same)))
  ]

  Band-grown :
      (t : Option ℤ) (total alloc request : ℤ)
      → t ≡ some total
      → Band (some total) (some alloc)
      → pos 0 ≤ℤ request
      → ltb_ℤ (total -ℤ alloc) request ≡ false
      → Band t (some (alloc +ℤ request))
  Band-grown t total alloc request e b n f =
      rw e (grown_nonneg alloc request b.0 n, fits_iff total alloc request f, b.2)

  -- After the CPU increment the memory numbers are what they were, and the invariant stands.
  cpu_written-IsSafe :
      (db : r.Db) (key : Str) (total alloc request : ℤ)
      → number_at r db key field_total_cpu ≡ some total
      → number_at r db key field_allocated_cpu ≡ some alloc
      → pos 0 ≤ℤ request
      → ltb_ℤ (total -ℤ alloc) request ≡ false
      → IsSafe r db
      → IsSafe r (r.hset db key field_allocated_cpu (format_int (alloc +ℤ request)))
  cpu_written-IsSafe db key total alloc request rt ra n f h =
      let band : Band (some total) (some alloc) = rw ra at (rw rt at (h.cpu key)) in
      record {
        cpu =
            hset-alloc-IsSafeIn r laws field_total_cpu field_allocated_cpu db key (alloc +ℤ request)
              refl h.cpu (Band-grown _ total alloc request rt band n f);
        mem =
            hset-other-IsSafeIn r laws field_total_mem field_allocated_mem db key
              field_allocated_cpu _ refl refl h.mem;
      }

  mem_written-IsSafe :
      (db : r.Db) (key : Str) (total alloc request : ℤ)
      → number_at r db key field_total_mem ≡ some total
      → number_at r db key field_allocated_mem ≡ some alloc
      → pos 0 ≤ℤ request
      → ltb_ℤ (total -ℤ alloc) request ≡ false
      → IsSafe r db
      → IsSafe r (r.hset db key field_allocated_mem (format_int (alloc +ℤ request)))
  mem_written-IsSafe db key total alloc request rt ra n f h =
      let band : Band (some total) (some alloc) = rw ra at (rw rt at (h.mem key)) in
      record {
        cpu =
            hset-other-IsSafeIn r laws field_total_cpu field_allocated_cpu db key
              field_allocated_mem _ refl refl h.cpu;
        mem =
            hset-alloc-IsSafeIn r laws field_total_mem field_allocated_mem db key (alloc +ℤ request)
              refl h.mem (Band-grown _ total alloc request rt band n f);
      }

  module _ (cpu mem : ℤ) (cpu_nonneg : pos 0 ≤ℤ cpu) (mem_nonneg : pos 0 ≤ℤ mem) (key : Str) where
    mem_step-IsSafe :
        (db : r.Db) (tm am : ℤ)
        → number_at r db key field_total_mem ≡ some tm
        → number_at r db key field_allocated_mem ≡ some am
        → ltb_ℤ (tm -ℤ am) mem ≡ false
        → IsSafe r db
        → IsSafe r
            (followed_by
              (incr_field r key field_allocated_mem mem)
              (λ db'. (ok reserve_ok, db'))
              db).1
    mem_step-IsSafe db tm am rt ra f h =
        elim (incr_field_writes key field_allocated_mem mem am db ra) [
          | inl e ↦ rw e h
          | inr e ↦ rw e (mem_written-IsSafe db key tm am mem rt ra mem_nonneg f h)
        ]

    reserve_read-IsSafe :
        (db : r.Db) (tc tm ac am : Option ℤ)
        → number_at r db key field_total_cpu ≡ tc
        → number_at r db key field_total_mem ≡ tm
        → number_at r db key field_allocated_cpu ≡ ac
        → number_at r db key field_allocated_mem ≡ am
        → IsSafe r db
        → IsSafe r (reserve_read r key cpu mem tc tm ac am db).1
    unfolding reserve_read
    reserve_read-IsSafe db (some tc) (some tm) (some ac) (some am) rtc rtm rac ram h =
        elim (Bool-cases (ltb_ℤ (tc -ℤ ac) cpu)) [
          | inl a ↦ rw a h
          | inr a ↦ elim (Bool-cases (ltb_ℤ (tm -ℤ am) mem)) [
            | inl b ↦ rw (a, b) h
            | inr b ↦
                rw (a, b)
                  (elim (incr_field_writes key field_allocated_cpu cpu ac db rac) [
                    | inl e ↦ rw e h
                    | inr e ↦ rw e (
                        mem_step-IsSafe _ tm am
                          (number_at-hset_ne r laws db key field_allocated_cpu _ key field_total_mem
                              refl
                            ∙ rtm)
                          (number_at-hset_ne r laws db key field_allocated_cpu _ key
                              field_allocated_mem refl
                            ∙ ram)
                          b (cpu_written-IsSafe db key tc ac cpu rtc rac cpu_nonneg a h))
                  ])
          ]
        ]
    reserve_read-IsSafe db _ _ _ _ rtc rtm rac ram h = h

    -- The reservation script never lets a node be oversubscribed, also when it is cut short
    -- between its two increments.
    pub reserve_script-IsSafe : KeepsIn r (IsSafe r) (reserve_script r key cpu mem)
    unfolding reserve_script
    reserve_script-IsSafe = record {
      at = λ db h. elim (Bool-cases (r.exists db key)) [
        | inl e ↦ rw e (reserve_read-IsSafe db _ _ _ _ refl refl refl refl h)
        | inr e ↦ rw e h
      ];
    }

  -- Reserving on any node keeps every node within its totals, whatever fails on the way, if the
  -- other processes keep that too and the request is not negative.
  pub Keeps-reserve :
      (e : Env r) (node_id : Str) (cpu mem : ℤ)
      → pos 0 ≤ℤ cpu
      → pos 0 ≤ℤ mem
      → Stable e (IsSafe r)
      → Keeps (IsSafe r) (reserve r e node_id cpu mem)
  unfolding reserve reserve_outcome
  Keeps-reserve e node_id cpu mem c m st =
      let key = node_capacity_key node_id in
      search (
        flow_rules,
        Keeps-eval_script e st (reserve_script r key cpu mem)
            (reserve_script-IsSafe cpu mem c m key),
      )

  -- A node whose capacity hash holds these four numbers in decimal.
  pub record IsNode (db : r.Db) (key : Str) (tc tm ac am : ℤ) : Type 0 where
    pub total_cpu : hget r db key field_total_cpu ≡ some (format_int tc)
    pub total_mem : hget r db key field_total_mem ≡ some (format_int tm)
    pub allocated_cpu : hget r db key field_allocated_cpu ≡ some (format_int ac)
    pub allocated_mem : hget r db key field_allocated_mem ≡ some (format_int am)
    pub tc_exact : IsExact tc
    pub tm_exact : IsExact tm
    pub ac_exact : IsExact ac
    pub am_exact : IsExact am

  module _ {db : r.Db} {key : Str} {tc tm ac am : ℤ} (node : IsNode db key tc tm ac am)
      (cpu mem : ℤ) where
    node_exists : r.exists db key ≡ true
    node_exists = laws.exists-hget db key field_total_cpu (format_int tc) node.total_cpu

    reserve_reads :
        reserve_script r key cpu mem db
        ≡ reserve_read r key cpu mem (some tc) (some tm) (some ac) (some am) db
    unfolding reserve_script
    reserve_reads = rw (
      node_exists,
      node.total_cpu,
      node.total_mem,
      node.allocated_cpu,
      node.allocated_mem,
      laws.tonumber-format_int tc node.tc_exact,
      laws.tonumber-format_int tm node.tm_exact,
      laws.tonumber-format_int ac node.ac_exact,
      laws.tonumber-format_int am node.am_exact,
    )

    -- What the database is after a reservation that was granted.
    abbrev pub reserved : r.Db
    reserved =
        r.hset (r.hset db key field_allocated_cpu (format_int (ac +ℤ cpu))) key field_allocated_mem
          (format_int (am +ℤ mem))

    incr_cpu :
        IsInt64 (ac +ℤ cpu)
        → incr_field r key field_allocated_cpu cpu db
          ≡ (ok tt, r.hset db key field_allocated_cpu (format_int (ac +ℤ cpu)))
    unfolding incr_field
    incr_cpu c = ground (
      arith,
      laws.hincrby-format_int db key field_allocated_cpu ac cpu node.allocated_cpu
          (ground (arith, node.ac_exact)) c,
    )

    mem_kept :
        hget r (r.hset db key field_allocated_cpu (format_int (ac +ℤ cpu))) key field_allocated_mem
        ≡ some (format_int am)
    mem_kept =
        laws.hget-hset db key field_allocated_cpu (format_int (ac +ℤ cpu)) key field_allocated_mem
        ∙ ground (arith, node.allocated_mem)

    incr_mem :
        IsInt64 (am +ℤ mem)
        → incr_field r key field_allocated_mem mem
            (r.hset db key field_allocated_cpu (format_int (ac +ℤ cpu)))
          ≡ (ok tt, reserved)
    unfolding incr_field
    incr_mem m = ground (
      arith,
      laws.hincrby-format_int _ key field_allocated_mem am mem mem_kept
          (ground (arith, node.am_exact)) m,
    )

    -- On a well-formed node the script grants a request exactly when it fits in both dimensions;
    -- it then adds it to both allocations, and otherwise leaves the database as it was.
    pub reserve_script_lem :
        IsInt64 (ac +ℤ cpu)
        → IsInt64 (am +ℤ mem)
        → reserve_script r key cpu mem db ≡ (
            if ltb_ℤ (tc -ℤ ac) cpu || ltb_ℤ (tm -ℤ am) mem
            then (ok reserve_no_headroom, db)
            else (ok reserve_ok, reserved))
    unfolding reserve_read
    reserve_script_lem c m = reserve_reads ∙ rw (incr_cpu c) (rw (incr_mem m))
