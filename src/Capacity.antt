-- ===== src/Capacity.antt =====
-- internal/capacity/capacity.go: the two Lua scripts that change a node's allocations, and the Go
-- functions that run them. The scripts' numbers are integers that a Lua number holds exactly; their
-- arguments are the Go integers themselves.
pub mod Safe
pub mod Reserve
pub mod Release
pub mod Undo
pub mod Frame
pub mod Guard
pub mod Sane
pub mod Readings
use orchestration.Prelude.{◌≡◌, Bool, true, false, ◌||◌, Option, none, some, if◌then◌else◌}
use orchestration.Prelude.Int.{ℤ, pos, negsuc, ◌+ℤ◌, ◌-ℤ◌, ltb_ℤ, eq_ℤ}
use orchestration.Prelude.Text.{Str}
use orchestration.Prelude.Decimal.{format_int}
use orchestration.Redis.{Redis, hget}
use orchestration.Client.{
  Result, ok, err, script_failed, malformed, invalid, Env, Client, Script, pure, fail, ◌>>=◌, ◌>>◌,
  eval_script, followed_by,
}
use orchestration.Schema.Keys.{node_capacity_key}
use orchestration.Schema.Fields.{
  field_total_cpu, field_total_mem, field_allocated_cpu, field_allocated_mem,
}

-- Reservation outcomes.
abbrev pub reserve_ok : ℤ
reserve_ok = pos 1

abbrev pub reserve_no_headroom : ℤ
reserve_no_headroom = pos 0

abbrev pub reserve_no_such_node : ℤ
reserve_no_such_node = negsuc 0

abbrev pub reserve_malformed : ℤ
reserve_malformed = negsuc 1

abbrev pub or_zero : Option ℤ → ℤ
or_zero none = pos 0
or_zero (some z) = z

-- newCPU and newMem: the difference, clamped at zero
abbrev pub clamped_sub : ℤ → ℤ → ℤ
clamped_sub a d = if ltb_ℤ (a -ℤ d) (pos 0) then pos 0 else a -ℤ d

module _ (r : Redis) where
  abbrev pub read_number : Option Str → Option ℤ
  read_number none = none
  read_number (some s) = r.tonumber s

  -- tonumber(redis.call('HGET', key, field)); nil is `none`
  abbrev pub number_at : r.Db → Str → Str → Option ℤ
  number_at db key f = read_number (hget r db key f)

  -- redis.call('HINCRBY', …): an error reply ends the script, and what it wrote before stays.
  unfoldable pub incr_field : Str → Str → ℤ → Script r Unit
  incr_field key f d db = elim (r.hincrby db key f d) [
    | none ↦ (err script_failed, db)
    | some db' ↦ (ok tt, db')
  ]

  -- the script from its second test on, with what it read
  unfoldable pub reserve_read : Str → ℤ → ℤ → Option ℤ → Option ℤ → Option ℤ → Option ℤ → Script r ℤ
  reserve_read key cpu mem (some total_cpu) (some total_mem) (some alloc_cpu) (some alloc_mem) db =
      if ltb_ℤ (total_cpu -ℤ alloc_cpu) cpu || ltb_ℤ (total_mem -ℤ alloc_mem) mem
      then (ok reserve_no_headroom, db)
      else followed_by (incr_field key field_allocated_cpu cpu)
          (followed_by (incr_field key field_allocated_mem mem) (λ db'. (ok reserve_ok, db'))) db
  reserve_read key cpu mem _ _ _ _ db = (ok reserve_malformed, db)

  unfoldable pub reserve_script : Str → ℤ → ℤ → Script r ℤ
  unfolding reserve_read
  reserve_script key cpu mem db =
      if r.exists db key
      then reserve_read key cpu mem (number_at db key field_total_cpu)
          (number_at db key field_total_mem) (number_at db key field_allocated_cpu)
          (number_at db key field_allocated_mem) db
      else (ok reserve_no_such_node, db)

  unfoldable pub release_script : Str → ℤ → ℤ → Script r ℤ
  release_script key cpu mem db =
      if r.exists db key
      then (
        ok (pos 1),
        r.hset
            (r.hset db key field_allocated_cpu
              (format_int (clamped_sub (or_zero (number_at db key field_allocated_cpu)) cpu)))
            key field_allocated_mem
            (format_int (clamped_sub (or_zero (number_at db key field_allocated_mem)) mem)),
      )
      else (ok (pos 0), db)

  -- the `switch` on the script's code
  unfoldable pub reserve_outcome : ℤ → Client r Bool
  reserve_outcome code =
      if eq_ℤ code reserve_ok
      then pure true
      else if eq_ℤ code reserve_no_headroom || eq_ℤ code reserve_no_such_node
      then pure false
      else if eq_ℤ code reserve_malformed
      then fail malformed
      else fail invalid

  module _ (e : Env r) where
    unfoldable pub reserve : Str → ℤ → ℤ → Client r Bool
    reserve node_id cpu mem = do
      code ← eval_script e (reserve_script (node_capacity_key node_id) cpu mem)
      reserve_outcome code

    unfoldable pub release : Str → ℤ → ℤ → Client r Unit
    release node_id cpu mem = do
      eval_script e (release_script (node_capacity_key node_id) cpu mem)
      pure tt
