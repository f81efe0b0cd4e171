-- ===== src/Capacity/Release.antt =====
-- internal/capacity/capacity.go: the release script and the invariant of `Capacity.Safe`.
use orchestration.Prelude.{refl, inl, inr, Option, none, some, Bool-cases, arith}
use orchestration.Prelude.Int.{ℤ, pos, ◌≤ℤ◌, -ℤ_parts}
use orchestration.Prelude.Text.{Str}
use orchestration.Prelude.Decimal.{format_int}
use orchestration.Redis.{Redis, RedisLaws}
use orchestration.Client.{Env}
use orchestration.Client.Keeps.{Keeps, KeepsIn, Stable, Keeps-eval_script, flow_rules}
use orchestration.Capacity.{number_at, release_script, release, clamped_sub, or_zero}
use orchestration.Capacity.Safe.{
  Band, IsSafe, hset-alloc-IsSafeIn, hset-other-IsSafeIn, number_at-hset_ne,
}
use orchestration.Schema.Keys.{node_capacity_key}
use orchestration.Schema.Fields.{
  field_total_cpu, field_total_mem, field_allocated_cpu, field_allocated_mem,
}

clamped_sub-nonneg : (a d : ℤ) → pos 0 ≤ℤ clamped_sub a d
clamped_sub-nonneg a d = ground (arith, -ℤ_parts a d)

clamped_sub-le : (a d : ℤ) → pos 0 ≤ℤ a → pos 0 ≤ℤ d → clamped_sub a d ≤ℤ a
clamped_sub-le a d h k = ground (arith, -ℤ_parts a d)

-- Returning capacity keeps the allocation in its band.
Band-shrunk :
    (t a : Option ℤ) (d : ℤ) → Band t a → pos 0 ≤ℤ d → Band t (some (clamped_sub (or_zero a) d))
Band-shrunk none none d b n =
    (clamped_sub-nonneg (pos 0) d, omega (arith, clamped_sub-le (pos 0) d (omega arith) n))
Band-shrunk none (some a) d b n = (clamped_sub-nonneg a d, omega (arith, clamped_sub-le a d b.0 n))
Band-shrunk (some t) none d b n =
    (clamped_sub-nonneg (pos 0) d, omega (arith, clamped_sub-le (pos 0) d (omega arith) n), b.1)
Band-shrunk (some t) (some a) d b n =
    (clamped_sub-nonneg a d, omega (arith, clamped_sub-le a d b.0 n), b.2)

module _ (r : Redis) (laws : RedisLaws r) where
  module _ (cpu mem : ℤ) (cpu_nonneg : pos 0 ≤ℤ cpu) (mem_nonneg : pos 0 ≤ℤ mem) (key : Str) where
    -- A release, also one too many, leaves every allocation between zero and the total.
    pub release_script-IsSafe : KeepsIn r (IsSafe r) (release_script r key cpu mem)
    unfolding release_script
    release_script-IsSafe = record {
      at = λ db h. elim (Bool-cases (r.exists db key)) [
        | inl e ↦ rw e (released db h)
        | inr e ↦ rw e h
      ];
    }
      where
        new_cpu : r.Db → ℤ
        new_cpu db = clamped_sub (or_zero (number_at r db key field_allocated_cpu)) cpu

        new_mem : r.Db → ℤ
        new_mem db = clamped_sub (or_zero (number_at r db key field_allocated_mem)) mem

        first : r.Db → r.Db
        first db = r.hset db key field_allocated_cpu (format_int (new_cpu db))

        released :
            (db : r.Db)
            → IsSafe r db
            → IsSafe r (r.hset (first db) key field_allocated_mem (format_int (new_mem db)))
        released db h = record {
          cpu =
              hset-other-IsSafeIn r laws field_total_cpu field_allocated_cpu (first db) key
                field_allocated_mem _ refl refl
                (hset-alloc-IsSafeIn r laws field_total_cpu field_allocated_cpu db key (new_cpu db)
                  refl h.cpu (Band-shrunk _ _ cpu (h.cpu key) cpu_nonneg));
          mem =
              hset-alloc-IsSafeIn r laws field_total_mem field_allocated_mem (first db) key
                (new_mem db) refl
                (hset-other-IsSafeIn r laws field_total_mem field_allocated_mem db key
                  field_allocated_cpu _ refl refl h.mem)
                (rw
                  (number_at-hset_ne r laws db key field_allocated_cpu (format_int (new_cpu db)) key
                    field_total_mem refl)
                  (Band-shrunk _ _ mem (h.mem key) mem_nonneg));
        }

  pub Keeps-release :
      (e : Env r) (node_id : Str) (cpu mem : ℤ)
      → pos 0 ≤ℤ cpu
      → pos 0 ≤ℤ mem
      → Stable e (IsSafe r)
      → Keeps (IsSafe r) (release r e node_id cpu mem)
  unfolding release
  Keeps-release e node_id cpu mem c m st =
      let key = node_capacity_key node_id in
      search (
        flow_rules,
        Keeps-eval_script e st (release_script r key cpu mem)
            (release_script-IsSafe cpu mem c m key),
      )
