-- ===== src/Scheduler/Safe.antt =====
-- internal/scheduler/scheduler.go: placement and the invariant of `Capacity.Safe`.
use orchestration.Prelude.{ℕ, zero, suc, Option, none, some, List, [], ◌∷◌}
use orchestration.Prelude.Int.{ℤ, pos, negsuc, ◌≤ℤ◌}
use orchestration.Prelude.Text.{Str}
use orchestration.Prelude.Float.{Float}
use orchestration.Redis.{Redis, RedisLaws, Hash}
use orchestration.Client.{Error, Env, Client}
use orchestration.Client.Keeps.{
  Keeps, Stable, flow_rules, env_rules, Keeps-hash_get, Keeps-set_members, Keeps-key_exists,
}
use orchestration.Capacity.Safe.{IsSafe}
use orchestration.Capacity.Guard.{Guard, IsSafe-Guard}
use orchestration.Supervisor.Commands.{send_command}
use orchestration.Schema.Codec.{DeploymentSpec}
use orchestration.Scheduler.{
  Candidate, when_live, live_nodes, consider, when_fitting, best_fit_order, release_after_failure,
  dispatch, commit, place, schedule_one, keep_going, rounds, schedule_replicas,
}

module _ {r : Redis} {P : r.Db → Type 0} {Q : ℤ → Type 0} (fl : Float) (e : Env r)
    (g : Guard e P Q) where
  when_live-Keeps : (node : Str) → Keeps P (when_live fl e node)
  unfolding when_live
  when_live-Keeps node = search (flow_rules, Keeps-key_exists e g.stable)

  pub live_nodes-Keeps : Keeps P (live_nodes fl e)
  unfolding live_nodes
  live_nodes-Keeps = search (flow_rules, Keeps-set_members e g.stable, when_live-Keeps)

  consider-Keeps :
      (cpu mem : ℤ) (node_id : Str) (h : Hash) → Keeps P (consider fl e cpu mem node_id h)
  unfolding consider
  consider-Keeps cpu mem node_id [] = search flow_rules
  consider-Keeps cpu mem node_id (f ∷ h) = search (flow_rules, env_rules)

  when_fitting-Keeps : (cpu mem : ℤ) (node : Str) → Keeps P (when_fitting fl e cpu mem node)
  unfolding when_fitting
  when_fitting-Keeps cpu mem node = search (flow_rules, Keeps-hash_get e g.stable, consider-Keeps)

  best_fit_order-Keeps : (cpu mem : ℤ) → Keeps P (best_fit_order fl e cpu mem)
  unfolding best_fit_order
  best_fit_order-Keeps cpu mem = search (flow_rules, live_nodes-Keeps, when_fitting-Keeps)

  module _ (dep : DeploymentSpec) (cpu_fine : Q dep.cpu_request)
      (mem_fine : Q dep.mem_request) where
    release_after_failure-Keeps : (node_id : Str) → Keeps P (release_after_failure fl e node_id dep)
    unfolding release_after_failure
    release_after_failure-Keeps node_id = search (flow_rules, env_rules, g.releases)

    dispatch-Keeps : (n d p : Str) → Keeps P (dispatch fl e n d p)
    unfolding dispatch send_command
    dispatch-Keeps n d p = search (flow_rules, env_rules, g.pushes)

    commit-Keeps : (node_id : Str) (random : Option Str) → Keeps P (commit fl e dep node_id random)
    unfolding commit
    commit-Keeps node_id none = search (flow_rules, release_after_failure-Keeps)
    commit-Keeps node_id (some pod_id) =
        search (flow_rules, env_rules, release_after_failure-Keeps, dispatch-Keeps, g.writes) depth
          8

    place_step-Keeps :
        (c : Candidate) (cs : List Candidate)
        → Keeps P (place fl e dep cs)
        → Keeps P (place fl e dep (c ∷ cs))
    unfolding place
    place_step-Keeps c cs rest = search (flow_rules, env_rules, commit-Keeps, g.reserves)

    place-Keeps : (cs : List Candidate) → Keeps P (place fl e dep cs)
    unfolding place
    place-Keeps [] = search flow_rules
    place-Keeps (c ∷ cs) = place_step-Keeps c cs (place-Keeps cs)

    schedule_one-Keeps : Keeps P (schedule_one fl e dep)
    unfolding schedule_one
    schedule_one-Keeps = search (flow_rules, best_fit_order-Keeps, place-Keeps)

    keep_going-Keeps :
        (pod : Str) (more : Client r (List Str × Option Error))
        → Keeps P more
        → Keeps P (keep_going fl e pod more)
    unfolding keep_going
    keep_going-Keeps [] more k = search (flow_rules, env_rules)
    keep_going-Keeps (c ∷ pod) more k = search (flow_rules, env_rules)

    rounds_step-Keeps : (n : ℕ) → Keeps P (rounds fl e n dep) → Keeps P (rounds fl e (suc n) dep)
    unfolding rounds
    rounds_step-Keeps n rest = search (flow_rules, schedule_one-Keeps, keep_going-Keeps)

    rounds-Keeps : (n : ℕ) → Keeps P (rounds fl e n dep)
    unfolding rounds
    rounds-Keeps zero = search flow_rules
    rounds-Keeps (suc n) = rounds_step-Keeps n (rounds-Keeps n)

    pub schedule_replicas-Guard : (count : ℤ) → Keeps P (schedule_replicas fl e dep count)
    unfolding schedule_replicas
    schedule_replicas-Guard (pos n) = rounds-Keeps n
    schedule_replicas-Guard (negsuc n) = search flow_rules

module _ (r : Redis) (laws : RedisLaws r) (fl : Float) (e : Env r) (st : Stable e (IsSafe r))
    (dep : DeploymentSpec) (cpu_nonneg : pos 0 ≤ℤ dep.cpu_request)
    (mem_nonneg : pos 0 ≤ℤ dep.mem_request) where
  -- Placing any number of replicas of a deployment whose requests are not negative keeps every
  -- node's allocation between zero and its total: whichever calls fail or lose their reply, and
  -- whatever other processes that keep it too do between any two calls.
  pub schedule_replicas-Keeps : (count : ℤ) → Keeps (IsSafe r) (schedule_replicas fl e dep count)
  schedule_replicas-Keeps count =
      schedule_replicas-Guard fl e (IsSafe-Guard r laws e st) dep cpu_nonneg mem_nonneg count
