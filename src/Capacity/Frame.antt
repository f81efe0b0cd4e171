-- ===== src/Capacity/Frame.antt =====
-- internal/capacity/capacity.go: both scripts write nothing but the two allocations of a node.
use orchestration.Prelude.{◌≡◌, refl, ◌∙◌, false, ◌||◌, inl, inr, Option, some, Bool-cases, arith}
use orchestration.Prelude.Int.{ℤ, ltb_ℤ, ◌-ℤ◌}
use orchestration.Prelude.Text.{Str, str_eq}
use orchestration.Redis.{Redis, RedisLaws, hget}
use orchestration.Client.{ok, followed_by}
use orchestration.Capacity.{
  number_at, incr_field, reserve_read, reserve_script, release_script, reserve_ok,
}
use orchestration.Capacity.Safe.{number_at-hset_ne}
use orchestration.Capacity.Reserve.{incr_field_writes}
use orchestration.Schema.Fields.{field_allocated_cpu, field_allocated_mem}

module _ (r : Redis) (laws : RedisLaws r) (f : Str) (not_cpu : str_eq field_allocated_cpu f ≡ false)
    (not_mem : str_eq field_allocated_mem f ≡ false) where
  hget-hset_ne :
      (db : r.Db) (k g v k' : Str)
      → str_eq g f ≡ false
      → hget r (r.hset db k g v) k' f ≡ hget r db k' f
  hget-hset_ne db k g v k' ne = laws.hget-hset db k g v k' f ∙ ground (arith, ne)

  mem_step_frame :
      (key k' : Str) (mem am : ℤ) (db : r.Db)
      → number_at r db key field_allocated_mem ≡ some am
      → hget r
          (followed_by
            (incr_field r key field_allocated_mem mem)
            (λ db'. (ok reserve_ok, db'))
            db).1
          k'
          f
        ≡ hget r db k' f
  mem_step_frame key k' mem am db ram =
      elim (incr_field_writes r laws key field_allocated_mem mem am db ram) [
        | inl e ↦ rw e refl
        | inr e ↦ rw e (hget-hset_ne db key field_allocated_mem _ k' not_mem)
      ]

  reserve_read_frame :
      (key k' : Str) (cpu mem : ℤ) (tc tm ac am : Option ℤ) (db : r.Db)
      → number_at r db key field_allocated_cpu ≡ ac
      → number_at r db key field_allocated_mem ≡ am
      → hget r (reserve_read r key cpu mem tc tm ac am db).1 k' f ≡ hget r db k' f
  unfolding reserve_read
  reserve_read_frame key k' cpu mem (some tc) (some tm) (some ac) (some am) db rac ram =
      elim (Bool-cases (ltb_ℤ (tc -ℤ ac) cpu || ltb_ℤ (tm -ℤ am) mem)) [
        | inl a ↦ rw a refl
        | inr a ↦ rw a (elim (incr_field_writes r laws key field_allocated_cpu cpu ac db rac) [
          | inl e ↦ rw e refl
          | inr e ↦ rw e (
              mem_step_frame key k' mem am _ (
                number_at-hset_ne r laws db key field_allocated_cpu _ key field_allocated_mem refl
                ∙ ram)
              ∙ hget-hset_ne db key field_allocated_cpu _ k' not_cpu)
        ])
      ]
  reserve_read_frame key k' cpu mem _ _ _ _ db rac ram = refl

  pub reserve_script_frame :
      (key k' : Str) (cpu mem : ℤ) (db : r.Db)
      → hget r (reserve_script r key cpu mem db).1 k' f ≡ hget r db k' f
  unfolding reserve_script
  reserve_script_frame key k' cpu mem db = elim (Bool-cases (r.exists db key)) [
    | inl e ↦ rw e (reserve_read_frame key k' cpu mem _ _ _ _ db refl refl)
    | inr e ↦ rw e refl
  ]

  pub release_script_frame :
      (key k' : Str) (cpu mem : ℤ) (db : r.Db)
      → hget r (release_script r key cpu mem db).1 k' f ≡ hget r db k' f
  unfolding release_script
  release_script_frame key k' cpu mem db = elim (Bool-cases (r.exists db key)) [
    | inl e ↦ rw e (
        hget-hset_ne _ key field_allocated_mem _ k' not_mem
        ∙ hget-hset_ne db key field_allocated_cpu _ k' not_cpu)
    | inr e ↦ rw e refl
  ]
