-- ===== src/Controller/Health/Safe.antt =====
-- internal/controller/health.go: eviction and the invariant of `Capacity.Safe`.
use orchestration.Prelude.{
  ℕ, zero, suc, refl, Bool, true, false, not, ◌&&◌, ◌==◌, Option, none, some, List, [], ◌∷◌,
  Bool-cases, inl, inr, arith,
}
use orchestration.Prelude.Int.{ℤ, pos}
use orchestration.Prelude.Text.{Str}
use orchestration.Prelude.Decimal.{format_int}
use orchestration.Redis.{Redis, RedisLaws, hget}
use orchestration.Client.{Result, ok, err, Level, Env, Client}
use orchestration.Client.Keeps.{
  Keeps, KeepsIn, Stable, flow_rules, env_rules, Keeps-eval_script, Keeps-set_members,
  Keeps-key_exists, Keeps-bind,
}
use orchestration.Capacity.Safe.{
  Band, IsSafe, hset-IsSafe, frame-IsSafe, number_at-hset_ne, hset-alloc-IsSafeIn,
  hset-other-IsSafeIn,
}
use orchestration.Schema.Fields.{
  field_pod_status, field_pod_node_id, field_total_cpu, field_total_mem, field_allocated_cpu,
  field_allocated_mem,
}
use orchestration.Controller.Health.{
  is_text, mark, mark_all, mark_pages, zero_allocations, evict_script, close, evict_dead,
  evict_node, go_on, sweep_alive, sweep_nodes, sweep_once, expired_node, on_expired,
  consume_expiries, node_id_from_status_key,
}

-- Nothing allocated is in every band.
Band-zero : (t a : Option ℤ) → Band t a → Band t (some (pos 0))
Band-zero none none b = ground arith
Band-zero none (some a) b = ground arith
Band-zero (some t) none b = ground arith
Band-zero (some t) (some a) b = ground arith

module _ (r : Redis) (laws : RedisLaws r) where
  mark-IsSafe :
      (node evicted key : Str) (x : r.Db × ℕ)
      → IsSafe r x.0
      → IsSafe r (mark r node evicted key x).0
  unfolding mark
  mark-IsSafe node evicted key x h =
      elim (Bool-cases (
        is_text (hget r x.0 key field_pod_node_id) node
        && not (is_text (hget r x.0 key field_pod_status) evicted))) [
          | inl e ↦ rw e (hset-IsSafe r laws x.0 key field_pod_status evicted refl h)
          | inr e ↦ rw e h
        ]

  mark_all-IsSafe :
      (node evicted : Str) (keys : List Str) (x : r.Db × ℕ)
      → IsSafe r x.0
      → IsSafe r (mark_all r node evicted keys x).0
  unfolding mark_all
  mark_all-IsSafe node evicted [] x h = h
  mark_all-IsSafe node evicted (key ∷ keys) x h =
      mark_all-IsSafe node evicted keys _ (mark-IsSafe node evicted key x h)

  mark_pages-IsSafe :
      (pages : ℕ) (pattern node evicted : Str) (cursor : ℕ) (x : r.Db × ℕ)
      → IsSafe r x.0
      → IsSafe r (mark_pages r pages pattern node evicted cursor x).1
  unfolding mark_pages
  mark_pages-IsSafe zero pattern node evicted cursor x h = h
  mark_pages-IsSafe (suc pages) pattern node evicted cursor x h =
      let page = r.scan x.0 cursor pattern in
      let marked = mark_all-IsSafe node evicted page.0 x h in
      elim (Bool-cases (page.1 == 0)) [
        | inl e ↦ rw e marked
        | inr e ↦ rw e (mark_pages-IsSafe pages pattern node evicted page.1 _ marked)
      ]

  zero_allocations-IsSafe :
      (key : Str) (db : r.Db) → IsSafe r db → IsSafe r (zero_allocations r key db)
  unfolding zero_allocations
  zero_allocations-IsSafe key db h = elim (Bool-cases (r.exists db key)) [
    | inr e ↦ rw e h
    | inl e ↦ rw e (record {
      cpu =
          hset-other-IsSafeIn r laws field_total_cpu field_allocated_cpu _ key field_allocated_mem _
            refl refl
            (hset-alloc-IsSafeIn r laws field_total_cpu field_allocated_cpu db key (pos 0) refl
              h.cpu (Band-zero _ _ (h.cpu key)));
      mem =
          hset-alloc-IsSafeIn r laws field_total_mem field_allocated_mem _ key (pos 0) refl
            (hset-other-IsSafeIn r laws field_total_mem field_allocated_mem db key
              field_allocated_cpu _ refl refl h.mem)
            (rw
              (number_at-hset_ne r laws db key field_allocated_cpu (format_int (pos 0)) key
                field_total_mem refl)
              (Band-zero _ _ (h.mem key)));
    })
  ]

  close-IsSafe :
      (key registry node : Str) (x : Result ℕ × r.Db)
      → IsSafe r x.1
      → IsSafe r (close r key registry node x).1
  close-IsSafe key registry node (err c, db) h = h
  close-IsSafe key registry node (ok n, db) h =
      frame-IsSafe r laws (zero_allocations r key db) _
        (λ k f. laws.hget-srem (zero_allocations r key db) registry node k f)
        (zero_allocations-IsSafe key db h)

  evict_script-IsSafe :
      (pages : ℕ) (key registry node pattern evicted : Str)
      → KeepsIn r (IsSafe r) (evict_script r pages key registry node pattern evicted)
  unfolding evict_script
  evict_script-IsSafe pages key registry node pattern evicted = record {
    at = λ db h.
        close-IsSafe key registry node _ (mark_pages-IsSafe pages pattern node evicted 0 (db, 0) h);
  }

  module _ (e : Env r) (st : Stable e (IsSafe r)) where
    evict_dead-Keeps : (node : Str) (alive : Bool) → Keeps (IsSafe r) (evict_dead e node alive)
    unfolding evict_dead
    evict_dead-Keeps node true = search flow_rules
    evict_dead-Keeps node false =
        search (flow_rules, env_rules, Keeps-eval_script e st, evict_script-IsSafe)

    evict_node-Keeps : (node : Str) → Keeps (IsSafe r) (evict_node e node)
    unfolding evict_node
    evict_node-Keeps [] = search flow_rules
    evict_node-Keeps (c ∷ node) = search (flow_rules, Keeps-key_exists e st, evict_dead-Keeps)

    go_on-Keeps :
        (level : Level) (event : Str) (more : Client r Unit)
        → Keeps (IsSafe r) more
        → Keeps (IsSafe r) (go_on e level event more)
    unfolding go_on
    go_on-Keeps level event more k = search (flow_rules, env_rules)

    sweep_alive-Keeps :
        (node : Str) (more : Client r Unit) (alive : Bool)
        → Keeps (IsSafe r) more
        → Keeps (IsSafe r) (sweep_alive e node more alive)
    unfolding sweep_alive
    sweep_alive-Keeps node more true k = k
    sweep_alive-Keeps node more false k = search (flow_rules, evict_node-Keeps, go_on-Keeps)

    sweep_nodes_step :
        (node : Str) (nodes : List Str)
        → Keeps (IsSafe r) (sweep_nodes e nodes)
        → Keeps (IsSafe r) (sweep_nodes e (node ∷ nodes))
    unfolding sweep_nodes
    sweep_nodes_step node nodes rest =
        search (flow_rules, Keeps-key_exists e st, sweep_alive-Keeps, go_on-Keeps)

    sweep_nodes-Keeps : (nodes : List Str) → Keeps (IsSafe r) (sweep_nodes e nodes)
    unfolding sweep_nodes
    sweep_nodes-Keeps [] = search flow_rules
    sweep_nodes-Keeps (node ∷ nodes) = sweep_nodes_step node nodes (sweep_nodes-Keeps nodes)

    -- A sweep over the registered nodes keeps every node's allocation between zero and its total,
    -- whatever fails and whatever other processes that keep it too do in between.
    pub sweep_once-Keeps : Keeps (IsSafe r) (sweep_once e)
    unfolding sweep_once
    sweep_once-Keeps = search (flow_rules, Keeps-set_members e st, sweep_nodes-Keeps)

    expired_node-Keeps : (node : Option Str) → Keeps (IsSafe r) (expired_node e node)
    unfolding expired_node
    expired_node-Keeps none = search flow_rules
    expired_node-Keeps (some node) = search (flow_rules, env_rules, evict_node-Keeps)

    on_expired-Keeps : (key : Str) → Keeps (IsSafe r) (on_expired e key)
    unfolding on_expired
    on_expired-Keeps key = expired_node-Keeps (node_id_from_status_key key)

    -- So does the handling of any sequence of expiry notifications.
    pub consume_expiries-Keeps : (keys : List Str) → Keeps (IsSafe r) (consume_expiries e keys)
    unfolding consume_expiries
    consume_expiries-Keeps [] = search flow_rules
    consume_expiries-Keeps (key ∷ keys) =
        Keeps-bind (on_expired e key) _ (on_expired-Keeps key) λ _. consume_expiries-Keeps keys
