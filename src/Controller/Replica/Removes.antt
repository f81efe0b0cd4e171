-- ===== src/Controller/Replica/Removes.antt =====
-- internal/controller/replica.go: what is read of pods, and their removal, under the invariant of
-- `Capacity.Sane`.
use orchestration.Prelude.{
  ℕ, zero, suc, Bool, Option, none, some, List, [], ◌∷◌, All, Bool-cases, inl, inr, take, keep,
  length,
}
use orchestration.Prelude.Int.{ℤ, ltb_ℤ, pos, pos_part}
use orchestration.Prelude.Text.{Str}
use orchestration.Prelude.Sort.{sort_by, sort_by-All}
use orchestration.Prelude.Float.{Float}
use orchestration.Redis.{Redis, RedisLaws, Hash}
use orchestration.Client.{Error, Result, ok, err, Env, Client, pure, handle}
use orchestration.Client.Keeps.{
  Keeps, Keeps-pure, Stable, flow_rules, env_rules, Keeps-report, Keeps-scan_keys,
}
use orchestration.Client.Gives.{
  Gives, Holds, Gives-pure, Gives-handle, Gives-Keeps, Gives-bind, Gives-collect, Gives-try,
  Keeps-bind_with,
}
use orchestration.Capacity.Readings.{PodFine, HashFine, Gives-hash_get}
use orchestration.Capacity.Guard.{Guard}
use orchestration.Capacity.Sane.{IsRequest, IsSane, IsSane-Guard}
use orchestration.Schema.Codec.{PodSpec, map_to_pod}
use orchestration.Supervisor.Commands.{send_command}
use orchestration.Scheduler.{live_nodes}
use orchestration.Scheduler.Safe.{live_nodes-Keeps}
use orchestration.Controller.Replica.{
  readable_pod, read_pod, pods_for_deployment, force_remove, remove_one, remove_failed, remove_loop,
  remove_listed, remove_pods, removed_before, select_victims,
}

take-All : {A : Type 0} (P : A → Type 0) (n : ℕ) (xs : List A) → All P xs → All P (take n xs)
take-All P zero xs h = tt
take-All P (suc n) [] h = tt
take-All P (suc n) (x ∷ xs) h = (h.0, take-All P n xs h.1)

pub keep-All :
    {A : Type 0} (P : A → Type 0) (p : A → Bool) (xs : List A) → All P xs → All P (keep p xs)
keep-All P p [] h = tt
keep-All P p (x ∷ xs) h = elim (Bool-cases (p x)) [
  | inl e ↦ rw e (h.0, keep-All P p xs h.1)
  | inr e ↦ rw e (keep-All P p xs h.1)
]

pub select_victims-All :
    (P : PodSpec → Type 0) (pods : List PodSpec) (count : ℤ)
    → All P pods
    → All P (select_victims pods count)
unfolding select_victims
select_victims-All P pods count h =
    let ranked = sort_by-All removed_before P pods h in
    elim (Bool-cases (ltb_ℤ (pos (length (sort_by removed_before pods))) count)) [
      | inl e ↦ rw e ranked
      | inr e ↦ rw e (take-All P (pos_part count) _ ranked)
    ]

module _ (r : Redis) (laws : RedisLaws r) (fl : Float) (e : Env r) (st : Stable e (IsSane r)) where
  Gives-readable_pod :
      (key : Str) (h : Hash) → HashFine h → Gives (IsSane r) (All PodFine) (readable_pod fl e key h)
  unfolding readable_pod
  Gives-readable_pod key [] k = Gives-pure [] tt
  Gives-readable_pod key (f ∷ fields) k =
      Gives-handle (map_to_pod (f ∷ fields)) _ _ (λ p eq. Gives-pure (p ∷ []) (k.pod p eq, tt))
        (λ c.
          Gives-bind (λ x. Unit {0}) _ _ (Gives-Keeps _ (Keeps-report e _ _))
            λ x y. Gives-pure [] tt)

  Gives-read_pod : (key : Str) → Gives (IsSane r) (All PodFine) (read_pod fl e key)
  unfolding read_pod
  Gives-read_pod key = Gives-bind HashFine _ _ (Gives-hash_get e st key) (Gives-readable_pod key)

  pub Gives-pods_for_deployment :
      (deployment : Str) → Gives (IsSane r) (All PodFine) (pods_for_deployment fl e deployment)
  unfolding pods_for_deployment
  Gives-pods_for_deployment deployment =
      Gives-bind (λ x. Unit {0}) _ _ (Gives-Keeps _ (Keeps-scan_keys e st _))
        λ keys _. Gives-collect PodFine _ keys Gives-read_pod

  abbrev guard : Guard e (IsSane r) IsRequest
  guard = IsSane-Guard r laws e st

  force_remove-Keeps : (pod : PodSpec) → PodFine pod → Keeps (IsSane r) (force_remove fl e pod)
  unfolding force_remove
  force_remove-Keeps pod k = search (flow_rules, guard.releases, guard.deletes)

  remove_one-Keeps :
      (live : List Str) (deployment : Str) (pod : PodSpec)
      → PodFine pod
      → Keeps (IsSane r) (remove_one fl e live deployment pod)
  unfolding remove_one send_command
  remove_one-Keeps live deployment pod k = search (flow_rules, guard.pushes, force_remove-Keeps)

  remove_failed-Keeps :
      (live : List Str) (pod : PodSpec) (more : Client r (ℕ × Option Error))
      → Keeps (IsSane r) more
      → Keeps (IsSane r) (remove_failed fl e live pod more)
  unfolding remove_failed
  remove_failed-Keeps live pod more k = search (flow_rules, env_rules)

  remove_step-Keeps :
      (live : List Str) (deployment : Str) (pod : PodSpec) (pods : List PodSpec)
      → PodFine pod
      → Keeps (IsSane r) (remove_loop fl e live deployment pods)
      → Keeps (IsSane r) (remove_loop fl e live deployment (pod ∷ pods))
  unfolding remove_loop
  remove_step-Keeps live deployment pod pods k rest =
      search (flow_rules, remove_one-Keeps, remove_failed-Keeps)

  remove_loop-Keeps :
      (live : List Str) (deployment : Str) (pods : List PodSpec)
      → All PodFine pods
      → Keeps (IsSane r) (remove_loop fl e live deployment pods)
  unfolding remove_loop
  remove_loop-Keeps live deployment [] k = search flow_rules
  remove_loop-Keeps live deployment (pod ∷ pods) k =
      remove_step-Keeps live deployment pod pods k.0 (remove_loop-Keeps live deployment pods k.1)

  nodes-Keeps : Keeps (IsSane r) (live_nodes fl e)
  nodes-Keeps = live_nodes-Keeps fl e guard

  remove_listed-Keeps :
      (deployment : Str) (pods : List PodSpec)
      → All PodFine pods
      → Keeps (IsSane r) (remove_listed fl e deployment pods)
  unfolding remove_listed
  remove_listed-Keeps deployment [] k = search flow_rules
  remove_listed-Keeps deployment (p ∷ pods) k = search (flow_rules, nodes-Keeps, remove_loop-Keeps)

  pub remove_pods-Keeps :
      (deployment : Str) (victims : List PodSpec)
      → All PodFine victims
      → Keeps (IsSane r) (remove_pods fl e deployment (some victims))
  unfolding remove_pods
  remove_pods-Keeps deployment victims k = remove_listed-Keeps deployment victims k

  remove_found-Keeps :
      (deployment : Str) (x : Result (List PodSpec))
      → Holds (All PodFine) x
      → Keeps (IsSane r) (handle x (remove_listed fl e deployment) (λ cause. pure (0, some cause)))
  remove_found-Keeps deployment (ok pods) k = remove_listed-Keeps deployment pods k
  remove_found-Keeps deployment (err c) k = Keeps-pure _

  pub remove_all-Keeps : (deployment : Str) → Keeps (IsSane r) (remove_pods fl e deployment none)
  unfolding remove_pods
  remove_all-Keeps deployment =
      Keeps-bind_with (Holds (All PodFine)) _ _ (Gives-try _ (Gives-pods_for_deployment deployment))
        (remove_found-Keeps deployment)
