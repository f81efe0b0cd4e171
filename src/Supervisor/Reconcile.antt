-- ===== src/Supervisor/Reconcile.antt =====
-- internal/supervisor/reconcile.go: what an agent does when it starts. The processes that its pods
-- own are a list of pids with their pods, newest first.
pub mod Orphans
use orchestration.Prelude.{
  ℕ, ◌≡◌, Bool, true, false, not, ◌&&◌, ◌||◌, Option, none, some, List, [], ◌∷◌, ◌++◌, ◌==◌,
  if◌then◌else◌, any,
}
use orchestration.Prelude.Int.{ℤ, pos, ltb_ℤ, eq_ℤ}
use orchestration.Prelude.Text.{Str, codes, str_eq, has_prefix, strip}
use orchestration.Prelude.Decimal.{parse_int64}
use orchestration.Redis.{Redis, Hash}
use orchestration.Client.{
  Error, Result, ok, err, info, warn, error, Env, Client, pure, fail, try, handle, ◌>>=◌, ◌>>◌,
  hash_get, hash_set, scan_keys, observe, report,
}
use orchestration.Schema.Keys.{pod_key_pattern}
use orchestration.Schema.Fields.{
  field_pod_node_id, field_pod_status, field_pod_pid, status_running, status_evicted,
}
use orchestration.Schema.Codec.{PodSpec, text_at, map_to_pod}
use orchestration.Supervisor.Machine.{Machine}
use orchestration.Supervisor.Process.{is_same_process}
use orchestration.Supervisor.Spawn.{spawn, terminate}

-- bytes.Split at NUL, with the entry it is in.
abbrev split_nul : Str → Str → List Str
split_nul entry [] = entry ∷ []
split_nul entry (c ∷ s) = if c == 0 then entry ∷ split_nul [] s else split_nul (entry ++ c ∷ []) s

-- The pod and the node of an environment's entries; of two of a kind the later counts.
abbrev marker_of : List Str → Str × Str → Str × Str
marker_of [] found = found
marker_of (entry ∷ entries) (pod, node) =
    if has_prefix entry (codes "MINIK8S_POD_ID=")
    then marker_of entries (strip entry (codes "MINIK8S_POD_ID="), node)
    else if has_prefix entry (codes "MINIK8S_NODE_ID=")
    then marker_of entries (pod, strip entry (codes "MINIK8S_NODE_ID="))
    else marker_of entries (pod, node)

-- The pod that a process of this node carries in its environment.
unfoldable pub pod_marker : Str → Option Str → Option Str
pod_marker node_id none = none
pod_marker node_id (some bytes) =
    let (pod, node) = marker_of (split_nul [] bytes) ([], []) in
    if str_eq pod [] || not (str_eq node node_id) then none else some pod

abbrev pub owns : List (ℤ × Str) → ℤ → Bool
owns owned pid = any (λ o. eq_ℤ o.0 pid) owned

pub record ReconcileReport : Type 0 where
  pub adopted : List Str
  pub restarted : List Str
  pub orphaned : List Str

module _ {r : Redis} (e : Env r) (os : Machine) (node_id : Str) where
  kill_marked : ℤ → Option Str → Client r (List Str) → Client r (List Str)
  kill_marked pid none more = more
  kill_marked pid (some pod_id) more = do
    report e warn (codes "orphan_process_killed")
    terminate e os node_id pid
    killed ← more
    pure (pod_id ∷ killed)

  -- One name of /proc.
  kill_orphan : List (ℤ × Str) → Option ℤ → Client r (List Str) → Client r (List Str)
  unfolding kill_marked
  kill_orphan owned none more = more
  kill_orphan owned (some pid) more = if eq_ℤ pid os.self || owns owned pid then more else (do
    bytes ← observe (λ t. os.environ t pid)
    kill_marked pid (pod_marker node_id bytes) more)

  kill_listed : List (ℤ × Str) → List Str → Client r (List Str)
  unfolding kill_orphan
  kill_listed owned [] = pure []
  kill_listed owned (name ∷ names) = kill_orphan owned (parse_int64 name) (kill_listed owned names)

  abbrev entries_or_fail : List (ℤ × Str) → Option (List Str) → Client r (Option (List Str))
  entries_or_fail owned none = pure none
  entries_or_fail owned (some names) = do killed ← kill_listed owned names; pure (some killed)

  -- `none` where /proc cannot be read.
  unfoldable pub kill_orphans : List (ℤ × Str) → Client r (Option (List Str))
  unfolding kill_listed
  kill_orphans owned = do names ← observe os.processes; entries_or_fail owned names

  -- What the loop over the pods has found so far.
  record Progress : Type 0 where
    owned : List (ℤ × Str)
    adopted : List Str
    restarted : List Str

  -- The live process is the truth, also where the record says otherwise.
  adopt : Str → PodSpec → Progress → Client r Progress
  adopt key pod p = do
    (if str_eq pod.status status_running then pure tt else (do
      written ← try (hash_set e key ((field_pod_status, status_running) ∷ []))
      handle written (λ _. pure tt) (λ _. report e warn (codes "pod_status_write_failed"))))
    report e info (codes "pod_adopted")
    pure (record p {
      owned = (pod.pid, pod.pod_id) ∷ p.owned;
      adopted = p.adopted ++ pod.pod_id ∷ [];
    })

  abbrev with_pid : Str → Option ℤ → List (ℤ × Str) → List (ℤ × Str)
  with_pid pod_id none owned = owned
  with_pid pod_id (some pid) owned = if ltb_ℤ (pos 0) pid then (pid, pod_id) ∷ owned else owned

  -- The record is read again to learn the new pid.
  respawned : Str → PodSpec → Progress → Client r Progress
  respawned key pod p = do
    refreshed ← try (hash_get e key)
    let restarted = p.restarted ++ pod.pod_id ∷ []
    handle refreshed
        (λ h. pure (record p {
          owned = with_pid pod.pod_id (parse_int64 (text_at h field_pod_pid)) p.owned;
          restarted = restarted;
        }))
        (λ _. pure (record p { restarted = restarted }))

  respawn : Str → PodSpec → Progress → Client r Progress
  unfolding respawned
  respawn key pod p = do
    report e warn (codes "pod_process_missing")
    outcome ← try (spawn e os node_id pod.deployment pod.pod_id)
    handle outcome (λ _. respawned key pod p)
        (λ _. do report e error (codes "pod_restart_failed"); pure p)

  reconcile_pod : Str → Progress → PodSpec → Client r Progress
  unfolding adopt respawn
  reconcile_pod key p pod = if str_eq pod.status status_evicted then pure p else (do
    running ← is_same_process os pod.pid pod.pid_start_time
    (if running then adopt key pod p else respawn key pod p))

  reconcile_fields : Str → Progress → Hash → Client r Progress
  unfolding reconcile_pod
  reconcile_fields key p [] = pure p
  reconcile_fields key p (f ∷ fields) =
      if str_eq (text_at (f ∷ fields) field_pod_node_id) node_id
      then handle (map_to_pod (f ∷ fields)) (reconcile_pod key p)
          (λ _. do report e warn (codes "pod_hash_malformed"); pure p)
      else pure p

  reconcile_keys : List Str → Progress → Client r Progress
  unfolding reconcile_fields
  reconcile_keys [] p = pure p
  reconcile_keys (key ∷ keys) p = do
    fields ← hash_get e key
    p' ← reconcile_fields key p fields
    reconcile_keys keys p'

  abbrev orphans_or_warn : Option (List Str) → Client r (List Str)
  orphans_or_warn none = do report e warn (codes "orphan_scan_failed"); pure []
  orphans_or_warn (some killed) = pure killed

  unfoldable pub reconcile_on_startup : Client r ReconcileReport
  unfolding reconcile_keys
  reconcile_on_startup = do
    keys ← scan_keys e pod_key_pattern
    p ← reconcile_keys keys (record { owned = []; adopted = []; restarted = [] })
    swept ← kill_orphans p.owned
    orphaned ← orphans_or_warn swept
    report e info (codes "startup_reconciled")
    pure (record { adopted = p.adopted; restarted = p.restarted; orphaned = orphaned })
