-- ===== src/Controller/Health.antt =====
-- internal/controller/health.go: which nodes are dead, and the script that evicts one. Its SCAN has
-- a number of pages to end in, as every SCAN of the model.
pub mod Leases
pub mod Evict
pub mod Frame
pub mod Ends
pub mod Safe
use orchestration.Prelude.{
  ℕ, zero, suc, ◌+◌, ◌≡◌, Bool, true, false, not, ◌&&◌, ◌||◌, Option, none, some, List, [], ◌∷◌,
  ◌==◌, if◌then◌else◌,
}
use orchestration.Prelude.Int.{ℤ, pos}
use orchestration.Prelude.Text.{
  Str, codes, str_eq, has_prefix, has_suffix, trim_prefix, trim_suffix, contains,
}
use orchestration.Prelude.Decimal.{format_int}
use orchestration.Redis.{Redis, hget}
use orchestration.Client.{
  Error, Result, ok, err, script_failed, interrupted, Level, warn, error, Env, Client, Script, pure,
  fail, try, handle, ◌>>=◌, ◌>>◌, set_members, key_exists, eval_script, cancelled, report,
}
use orchestration.Schema.Keys.{
  node_registry_key, node_status_key, node_capacity_key, pod_key_pattern,
}
use orchestration.Schema.Fields.{
  field_pod_node_id, field_pod_status, field_allocated_cpu, field_allocated_mem, status_evicted,
}

abbrev pub is_text : Option Str → Str → Bool
is_text none t = false
is_text (some s) t = str_eq s t

module _ (r : Redis) where
  -- The body of the script's inner loop, with the count of evicted pods.
  unfoldable pub mark : Str → Str → Str → r.Db × ℕ → r.Db × ℕ
  mark node evicted key (db, count) =
      if is_text (hget r db key field_pod_node_id) node
        && not (is_text (hget r db key field_pod_status) evicted)
      then (r.hset db key field_pod_status evicted, count + 1)
      else (db, count)

  unfoldable pub mark_all : Str → Str → List Str → r.Db × ℕ → r.Db × ℕ
  unfolding mark
  mark_all node evicted [] marked = marked
  mark_all node evicted (key ∷ keys) marked =
      mark_all node evicted keys (mark node evicted key marked)

  -- repeat … until cursor == "0"
  unfoldable pub mark_pages : ℕ → Str → Str → Str → ℕ → r.Db × ℕ → Result ℕ × r.Db
  unfolding mark_all
  mark_pages zero pattern node evicted cursor (db, count) = (err script_failed, db)
  mark_pages (suc pages) pattern node evicted cursor (db, count) =
      let page = r.scan db cursor pattern in
      let marked = mark_all node evicted page.0 (db, count) in
      let rest = mark_pages pages pattern node evicted page.1 marked in
      if page.1 == 0 then (ok marked.1, marked.0) else rest

  unfoldable pub zero_allocations : Str → r.Db → r.Db
  zero_allocations key db =
      if r.exists db key
      then r.hset (r.hset db key field_allocated_cpu (format_int (pos 0))) key field_allocated_mem
          (format_int (pos 0))
      else db

  -- the script behind its loop
  abbrev pub close : Str → Str → Str → Result ℕ × r.Db → Result ℕ × r.Db
  close key registry node (err cause, db) = (err cause, db)
  close key registry node (ok count, db) =
      (ok count, r.srem (zero_allocations key db) registry node)

  unfoldable pub evict_script : ℕ → Str → Str → Str → Str → Str → Script r ℕ
  unfolding mark_pages zero_allocations
  evict_script pages key registry node pattern evicted db =
      close key registry node (mark_pages pages pattern node evicted 0 (db, 0))

module _ {r : Redis} (e : Env r) where
  -- A node that is alive again is left alone.
  evict_dead : Str → Bool → Client r Unit
  evict_dead node true = pure tt
  evict_dead node false = do
    eval_script e (
        evict_script r e.pages (node_capacity_key node) node_registry_key node pod_key_pattern
          status_evicted)
    report e warn (codes "node_evicted")

  unfoldable pub evict_node : Str → Client r Unit
  unfolding evict_dead
  evict_node [] = pure tt
  evict_node (c ∷ node) = do
    alive ← key_exists e (node_status_key (c ∷ node))
    evict_dead (c ∷ node) alive

  -- An error ends the sweep only when the context is done.
  go_on : Level → Str → Client r Unit → Client r Unit
  go_on level event more = do
    done ← cancelled e
    if done then fail interrupted else (do report e level event; more)

  sweep_alive : Str → Client r Unit → Bool → Client r Unit
  unfolding go_on
  sweep_alive node more true = more
  sweep_alive node more false = do
    outcome ← try (evict_node node)
    handle outcome (λ _. more) (λ _. go_on error (codes "evict_failed") more)

  sweep_nodes : List Str → Client r Unit
  unfolding sweep_alive
  sweep_nodes [] = pure tt
  sweep_nodes (node ∷ nodes) = do
    alive ← try (key_exists e (node_status_key node))
    let more = sweep_nodes nodes
    handle alive (sweep_alive node more) (λ _. go_on warn (codes "lease_check_failed") more)

  unfoldable pub sweep_once : Client r Unit
  unfolding sweep_nodes
  sweep_once = do registered ← set_members e node_registry_key; sweep_nodes registered

abbrev lease_prefix : Str
lease_prefix = codes "node:"

abbrev lease_suffix : Str
lease_suffix = codes ":status"

unfoldable pub node_id_from_status_key : Str → Option Str
node_id_from_status_key key =
    if not (has_prefix key lease_prefix) || not (has_suffix key lease_suffix)
    then none
    else let id = trim_suffix (trim_prefix key lease_prefix) lease_suffix in
      if str_eq id [] || contains b':' id then none else some id

module _ {r : Redis} (e : Env r) where
  expired_node : Option Str → Client r Unit
  expired_node none = pure tt
  expired_node (some node) = do
    outcome ← try (evict_node e node)
    handle outcome (λ _. pure tt)
        (λ _. do
          done ← cancelled e
          if done then pure tt else report e error (codes "evict_failed"))

  -- One message of the subscription: the name of the key that expired.
  unfoldable pub on_expired : Str → Client r Unit
  unfolding expired_node
  on_expired key = expired_node (node_id_from_status_key key)

  -- The messages of one subscription, in order.
  unfoldable pub consume_expiries : List Str → Client r Unit
  consume_expiries [] = pure tt
  consume_expiries (key ∷ keys) = do on_expired key; consume_expiries keys
