-- ===== src/Supervisor/Reconcile/Orphans.antt =====
-- internal/supervisor/reconcile.go: the processes that killOrphans signals.
use orchestration.Prelude.{
  ℕ, zero, suc, ◌≡◌, refl, Bool, false, ◌||◌, Option, none, some, List, [], ◌∷◌, arith,
}
use orchestration.Prelude.Int.{ℤ, pos, eq_ℤ, leb_ℤ}
use orchestration.Prelude.Text.{Str}
use orchestration.Prelude.Decimal.{parse_int64}
use orchestration.Redis.{Redis}
use orchestration.Client.{Act, started, terminated, killed, installed, ran, warn, Env, Client}
use orchestration.Client.Acts.{
  Only, act_rules, Only-pure, Only-report, Only-act, Only-choice, Only-bind, Only-observed,
}
use orchestration.Supervisor.Machine.{Machine}
use orchestration.Supervisor.Process.{pid_alive}
use orchestration.Supervisor.Spawn.{terminate, wait_or_kill}
use orchestration.Supervisor.Reconcile.{
  pod_marker, owns, kill_marked, kill_orphan, kill_listed, kill_orphans, entries_or_fail,
}

-- Another process than the agent, owned by no pod of the list, that carried a pod's marker of this
-- node in its environment.
abbrev pub IsOrphan : Machine → Str → List (ℤ × Str) → ℤ → Type 0
IsOrphan os node_id owned pid =
    (eq_ℤ pid os.self ≡ false)
    × (owns owned pid ≡ false)
    × ((t : ℕ) × (pod_id : Str) × (pod_marker node_id (os.environ t pid) ≡ some pod_id))

-- A signal to an orphan.
abbrev pub ToOrphan : Machine → Str → List (ℤ × Str) → Act → Type 0
ToOrphan os node_id owned (started path env pid) = ⊥
ToOrphan os node_id owned (terminated pid) = IsOrphan os node_id owned pid
ToOrphan os node_id owned (killed pid) = IsOrphan os node_id owned pid
ToOrphan os node_id owned (installed path text) = ⊥
ToOrphan os node_id owned (ran argv) = ⊥

module _ {r : Redis} (e : Env r) (os : Machine) (node_id : Str) (owned : List (ℤ × Str)) where
  abbrev Spares : {A : Type 0} → Client r A → Type 0
  Spares m = Only (ToOrphan os node_id owned) m

  pid_alive-Only : (pid : ℤ) → Spares (pid_alive os pid)
  unfolding pid_alive
  pid_alive-Only pid = search act_rules

  wait_step :
      (polls : ℕ) (pid : ℤ)
      → Spares (wait_or_kill e os node_id polls pid)
      → Spares (wait_or_kill e os node_id (suc polls) pid)
  unfolding wait_or_kill
  wait_step polls pid rest = search (act_rules, pid_alive-Only)

  wait_or_kill-Only :
      (polls : ℕ) (pid : ℤ)
      → IsOrphan os node_id owned pid
      → Spares (wait_or_kill e os node_id polls pid)
  unfolding wait_or_kill
  wait_or_kill-Only zero pid o = Only-act (killed pid) o
  wait_or_kill-Only (suc polls) pid o = wait_step polls pid (wait_or_kill-Only polls pid o)

  terminate-Only : (pid : ℤ) → IsOrphan os node_id owned pid → Spares (terminate e os node_id pid)
  unfolding terminate
  terminate-Only pid o =
      Only-choice (leb_ℤ pid (pos 0)) _ _ (λ _. Only-pure tt)
        λ _. Only-bind _ _ (Only-act (terminated pid) o) λ _. wait_or_kill-Only os.polls pid o

  kill_marked-Only :
      (pid : ℤ) (t : ℕ) (more : Client r (List Str))
      → eq_ℤ pid os.self ≡ false
      → owns owned pid ≡ false
      → Spares more
      → Spares (kill_marked e os node_id pid (pod_marker node_id (os.environ t pid)) more)
  unfolding kill_marked
  kill_marked-Only pid t more other free rest =
      by_marker (pod_marker node_id (os.environ t pid)) refl
    where
      by_marker :
          (x : Option Str)
          → pod_marker node_id (os.environ t pid) ≡ x
          → Spares (kill_marked e os node_id pid x more)
      by_marker none p = rest
      by_marker (some pod_id) p = Only-bind _ _ (Only-report e warn _) λ _.
          Only-bind _ _ (terminate-Only pid (other, free, (t, pod_id, p)))
            λ _. Only-bind _ _ rest λ dead. Only-pure (pod_id ∷ dead)

  kill_orphan-Only :
      (name : Option ℤ) (more : Client r (List Str))
      → Spares more
      → Spares (kill_orphan e os node_id owned name more)
  unfolding kill_orphan
  kill_orphan-Only none more rest = rest
  kill_orphan-Only (some pid) more rest =
      Only-choice (eq_ℤ pid os.self || owns owned pid) _ _ (λ _. rest)
        λ apart.
          let both = neither (eq_ℤ pid os.self) (owns owned pid) apart in
          Only-observed (λ t. os.environ t pid) _
            λ t. kill_marked-Only pid t more both.0 both.1 rest
    where
      neither : (a b : Bool) → (a || b) ≡ false → (a ≡ false) × (b ≡ false)
      neither a b h = ground arith

  kill_listed-Only : (names : List Str) → Spares (kill_listed e os node_id owned names)
  unfolding kill_listed
  kill_listed-Only [] = Only-pure []
  kill_listed-Only (name ∷ names) = kill_orphan-Only (parse_int64 name) _ (kill_listed-Only names)

  -- The orphan sweep does nothing to a process but signal it, and every process that it signals is
  -- another than the agent, is owned by no pod of the list, and carried a pod's marker with this
  -- node's id in its environment when that was read; whatever the machine answers.
  pub kill_orphans-Only : Only (ToOrphan os node_id owned) (kill_orphans e os node_id owned)
  unfolding kill_orphans
  kill_orphans-Only = Only-observed os.processes _ λ t. listed (os.processes t)
    where
      listed : (x : Option (List Str)) → Spares (entries_or_fail e os node_id owned x)
      listed none = Only-pure none
      listed (some names) = Only-bind _ _ (kill_listed-Only names) λ dead. Only-pure (some dead)
