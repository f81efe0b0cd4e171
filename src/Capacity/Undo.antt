-- ===== src/Capacity/Undo.antt =====
-- internal/capacity/capacity.go: a reservation and the release of the same amounts.
use orchestration.Prelude.{◌≡◌, sym, ap, ◌∙◌, Bool, true, false, some, if◌then◌else◌, arith}
use orchestration.Prelude.Int.{ℤ, pos, ◌≤ℤ◌, ◌+ℤ◌, ◌-ℤ◌, IsInt64, +ℤ_parts, -ℤ_parts, eq_of_parts}
use orchestration.Prelude.Text.{Str, str_eq, str_eq_refl}
use orchestration.Prelude.Decimal.{format_int}
use orchestration.Redis.{Redis, RedisLaws, IsExact, hget}
use orchestration.Client.{Result, ok}
use orchestration.Capacity.{
  reserve_script, release_script, reserve_ok, reserve_no_headroom, clamped_sub,
}
use orchestration.Capacity.Reserve.{IsNode, reserve_script_lem}
use orchestration.Schema.Fields.{
  field_total_cpu, field_total_mem, field_allocated_cpu, field_allocated_mem,
}

clamped_sub-+ℤ : (a d : ℤ) → pos 0 ≤ℤ a → clamped_sub (a +ℤ d) d ≡ a
clamped_sub-+ℤ a d h = rw (back a d) (ground arith)
  where
    back : (a d : ℤ) → a +ℤ d -ℤ d ≡ a
    back a d = eq_of_parts (a +ℤ d -ℤ d) a (omega (arith, +ℤ_parts a d, -ℤ_parts (a +ℤ d) d))

-- Where a reservation was granted, the database is the one of the granting branch.
granted_db :
    {D : Type 0}
    → (b : Bool) (x : Result ℤ × D) (d d' : D)
    → x ≡ (if b then (ok reserve_no_headroom, d) else (ok reserve_ok, d'))
    → x.0 ≡ ok reserve_ok
    → x.1 ≡ d'
granted_db true x d d' e h = absurd (clash (sym (ap (λ y. y.0) e) ∙ h))
  where
    clash : ok reserve_no_headroom ≡ ok reserve_ok → ⊥
    clash h = cc
granted_db false x d d' e h = ap (λ y. y.1) e

module _ (r : Redis) (laws : RedisLaws r) where
  hset_two :
      (db : r.Db) (key v w f : Str)
      → hget r (r.hset (r.hset db key field_allocated_cpu v) key field_allocated_mem w) key f ≡ (
          if str_eq field_allocated_mem f
          then some w
          else if str_eq field_allocated_cpu f
          then some v
          else hget r db key f)
  hset_two db key v w f = ground (
    arith,
    laws.hget-hset (r.hset db key field_allocated_cpu v) key field_allocated_mem w key f,
    laws.hget-hset db key field_allocated_cpu v key f,
    str_eq_refl key,
  )

  -- Two writes to the allocations make a node with those allocations.
  hset_two-IsNode :
      {db : r.Db} {key : Str} {tc tm ac am : ℤ}
      → (node : IsNode r laws db key tc tm ac am) (c m : ℤ) → IsExact c
      → IsExact m
      → IsNode r laws
          (r.hset
            (r.hset db key field_allocated_cpu (format_int c))
            key
            field_allocated_mem
            (format_int m))
          key
          tc
          tm
          c
          m
  hset_two-IsNode {db} {key} node c m hc hm =
      let v = format_int c in
      let w = format_int m in
      record {
        total_cpu = hset_two db key v w field_total_cpu ∙ node.total_cpu;
        total_mem = hset_two db key v w field_total_mem ∙ node.total_mem;
        allocated_cpu = hset_two db key v w field_allocated_cpu;
        allocated_mem = hset_two db key v w field_allocated_mem;
        tc_exact = node.tc_exact;
        tm_exact = node.tm_exact;
        ac_exact = hc;
        am_exact = hm;
      }

  -- A release writes the clamped differences.
  release_script-IsNode :
      {db : r.Db} {key : Str} {tc tm ac am : ℤ}
      → (node : IsNode r laws db key tc tm ac am) (cpu mem c m : ℤ) → clamped_sub ac cpu ≡ c
      → clamped_sub am mem ≡ m
      → IsExact c
      → IsExact m
      → IsNode r laws (release_script r key cpu mem db).1 key tc tm c m
  unfolding release_script
  release_script-IsNode {db} {key} {tc} {tm} {ac} {am} node cpu mem c m p q hc hm =
      rw
        (
          laws.exists-hget db key field_total_cpu (format_int tc) node.total_cpu,
          node.allocated_cpu,
          node.allocated_mem,
          laws.tonumber-format_int ac node.ac_exact,
          laws.tonumber-format_int am node.am_exact,
          p,
          q,
        )
        (hset_two-IsNode node c m hc hm)

  module _ {db : r.Db} {key : Str} {tc tm ac am : ℤ} (node : IsNode r laws db key tc tm ac am)
      (cpu mem : ℤ) where
    -- On a node whose allocations are not negative, a release of what a granted reservation took
    -- leaves the node with the totals and the allocations that it had, if the sums in between are
    -- integers that a Lua number holds.
    pub release_script-reserve_script :
        pos 0 ≤ℤ ac
        → pos 0 ≤ℤ am
        → IsExact (ac +ℤ cpu)
        → IsExact (am +ℤ mem)
        → (reserve_script r key cpu mem db).0 ≡ ok reserve_ok
        → IsNode r laws
            (release_script r key cpu mem (reserve_script r key cpu mem db).1).1
            key
            tc
            tm
            ac
            am
    release_script-reserve_script ha hm ec em granted =
        let outcome =
          reserve_script_lem r laws node cpu mem (fits (ac +ℤ cpu) ec) (fits (am +ℤ mem) em) in
        let full = hset_two-IsNode node (ac +ℤ cpu) (am +ℤ mem) ec em in
        rw (granted_db _ (reserve_script r key cpu mem db) db _ outcome granted) (
          release_script-IsNode full cpu mem ac am (clamped_sub-+ℤ ac cpu ha)
            (clamped_sub-+ℤ am mem hm) node.ac_exact node.am_exact)
      where
        fits : (z : ℤ) → IsExact z → IsInt64 z
        fits z h = (omega arith, omega arith)
