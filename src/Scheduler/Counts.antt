-- ===== src/Scheduler/Counts.antt =====
-- internal/scheduler/scheduler.go: how many pods a placement creates.
use orchestration.Prelude.{ℕ, zero, suc, ◌≤◌, Option, List, [], ◌∷◌, length, arith}
use orchestration.Prelude.Int.{ℤ, pos, negsuc, pos_part}
use orchestration.Prelude.Text.{Str}
use orchestration.Prelude.Float.{Float}
use orchestration.Redis.{Redis}
use orchestration.Client.{Error, Env, Client}
use orchestration.Client.Returns.{
  Returns, Returns-pure, Returns-bind, Returns-handle, Returns-Any, Any,
}
use orchestration.Schema.Codec.{DeploymentSpec}
use orchestration.Scheduler.{rounds, keep_going, schedule_replicas}

-- The pods that a call created, beside the error that ended it.
abbrev pub AtMost : ℕ → List Str × Option Error → Type 0
AtMost n x = length x.0 ≤ n

module _ {r : Redis} (fl : Float) (e : Env r) where
  keep_going-AtMost :
      (n : ℕ) (pod : Str) (more : Client r (List Str × Option Error))
      → Returns (AtMost n) more
      → Returns (AtMost (suc n)) (keep_going fl e pod more)
  unfolding keep_going
  keep_going-AtMost n [] more k =
      Returns-bind Any _ _ (Returns-Any _) λ _ _. Returns-pure _ (omega arith)
  keep_going-AtMost n (c ∷ pod) more k =
      Returns-bind (AtMost n) _ _ k λ rest h. Returns-pure _ (omega arith)

  rounds-AtMost : (n : ℕ) (dep : DeploymentSpec) → Returns (AtMost n) (rounds fl e n dep)
  unfolding rounds
  rounds-AtMost zero dep = Returns-pure _ (omega arith)
  rounds-AtMost (suc n) dep = Returns-bind Any _ _ (Returns-Any _) λ placed _.
      Returns-handle placed _ _
        (λ pod _. keep_going-AtMost n pod (rounds fl e n dep) (rounds-AtMost n dep))
        (λ c. Returns-pure _ (omega arith))

  pub schedule_replicas-AtMost :
      (dep : DeploymentSpec) (count : ℤ)
      → Returns (AtMost (pos_part count)) (schedule_replicas fl e dep count)
  unfolding schedule_replicas
  schedule_replicas-AtMost dep (pos n) = rounds-AtMost n dep
  schedule_replicas-AtMost dep (negsuc n) = Returns-pure _ (omega arith)
