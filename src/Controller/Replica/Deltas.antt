-- ===== src/Controller/Replica/Deltas.antt =====
-- internal/controller/replica.go: the counts that the delta engine reports.
use orchestration.Prelude.{
  ℕ, suc, ◌+◌, ◌-◌, ◌≤◌, ◌<◌, ◌^◌, ◌≡◌, ap, ◌∙◌, true, Option, some, List, [], ◌∷◌, length, ◌⊎◌,
  inl, inr, arith,
}
use orchestration.Prelude.Int.{ℤ, pos, pos_part, ◌-ℤ◌, ltb_ℤ, sub64, wrap, wrap_lem}
use orchestration.Prelude.Text.{Str}
use orchestration.Prelude.Float.{Float}
use orchestration.Redis.{Redis}
use orchestration.Client.{Error, Env, Client}
use orchestration.Client.Returns.{
  Returns, Returns-pure, Returns-bind, Returns-handle, Returns-if, Returns-Any, Any,
}
use orchestration.Schema.Codec.{DeploymentSpec, PodSpec}
use orchestration.Scheduler.Counts.{AtMost, schedule_replicas-AtMost}
use orchestration.Controller.Replica.{
  Delta, remove_loop, remove_failed, remove_listed, remove_pods, one_more, converge, select_victims,
}
use orchestration.Controller.Replica.Victims.{select_victims_lem}

abbrev Removes : ℕ → ℕ × Option Error → Type 0
Removes n x = x.0 ≤ n

module _ {r : Redis} (fl : Float) (e : Env r) where
  remove_loop-Removes :
      (live : List Str) (name : Str) (pods : List PodSpec)
      → Returns (Removes (length pods)) (remove_loop fl e live name pods)
  unfolding remove_loop remove_failed one_more
  remove_loop-Removes live name [] = Returns-pure _ (omega arith)
  remove_loop-Removes live name (pod ∷ pods) =
      let ih = remove_loop-Removes live name pods in
      Returns-bind Any _ _ (Returns-Any _) λ outcome _.
        Returns-handle outcome _ _
          (λ _ _.
            Returns-bind (Removes (length pods)) _ _ ih λ rest h. Returns-pure _ (omega arith))
          (λ c. Returns-bind Any _ _ (Returns-Any _) λ done _.
            Returns-if done _ _ (λ _. Returns-pure _ (omega arith))
              (λ _. Returns-bind Any _ _ (Returns-Any _) λ _ _. weaken pods ih))
    where
      weaken :
          (pods : List PodSpec) {m : Client r (ℕ × Option Error)}
          → Returns (Removes (length pods)) m
          → Returns (Removes (suc (length pods))) m
      weaken pods k = record { at = λ w a p. omega (arith, k.at w a p) }

  remove_pods-Removes :
      (name : Str) (victims : List PodSpec)
      → Returns (Removes (length victims)) (remove_pods fl e name (some victims))
  unfolding remove_pods remove_listed
  remove_pods-Removes name [] = Returns-pure _ (omega arith)
  remove_pods-Removes name (p ∷ pods) = Returns-bind Any _ _ (Returns-Any _) λ live _.
      Returns-handle live _ _ (λ nodes _. remove_loop-Removes nodes name (p ∷ pods))
        (λ c. Returns-pure _ (omega arith))

  -- Against `n` pods that count, no more is created than is short of `desired`, no more is removed
  -- than is above it, and never both.
  abbrev pub Bounded : ℕ → ℕ → Delta × Option Error → Type 0
  Bounded desired n x =
      ((x.0.created ≡ 0) ⊎ (n + x.0.created ≤ desired))
      × ((x.0.removed ≡ 0) ⊎ (desired + x.0.removed ≤ n))
      × ((x.0.created ≡ 0) ⊎ (x.0.removed ≡ 0))

  difference : (a b : ℕ) → a < b → sub64 (pos b) (pos a) ≡ wrap (pos (b - a))
  unfolding ◌-ℤ◌
  difference a b h = ground arith

  gap : (a b : ℕ) → a < b → b < 2 ^ 63 → sub64 (pos b) (pos a) ≡ pos (b - a)
  gap a b h k = difference a b h ∙ wrap_lem (pos (b - a)) (omega arith, omega arith)

  shortfall :
      (z : ℤ) (d n : ℕ)
      → z ≡ pos d
      → ltb_ℤ (pos n) z ≡ true
      → d < 2 ^ 63
      → (n < d) × (sub64 z (pos n) ≡ pos (d - n))
  shortfall z d n p b k = (below, rw p (gap n d below k))
    where
      below : n < d
      below = ground (arith, rw p at b)

  surplus :
      (z : ℤ) (d n : ℕ)
      → z ≡ pos d
      → ltb_ℤ z (pos n) ≡ true
      → n < 2 ^ 63
      → (d < n) × (sub64 (pos n) z ≡ pos (n - d))
  surplus z d n p b k = (above, rw p (gap d n above k))
    where
      above : d < n
      above = ground (arith, rw p at b)

  grows :
      (d n made : ℕ) (count : ℤ)
      → n < d
      → count ≡ pos (d - n)
      → made ≤ pos_part count
      → n + made ≤ d
  grows d n made count h p k = omega (arith, ap pos_part p)

  shrinks :
      (d : ℕ) (live : List PodSpec) (count : ℤ) (n : ℕ)
      → d < length live
      → count ≡ pos (length live - d)
      → n ≤ length (select_victims live count)
      → d + n ≤ length live
  shrinks d live count n h p k = few d live (rw p at k) h
    where
      few :
          (d : ℕ) (live : List PodSpec)
          → n ≤ length (select_victims live (pos (length live - d)))
          → d < length live
          → d + n ≤ length live
      few d live k h = omega (arith, (select_victims_lem live (length live - d)).0)

  -- For a desired count below 2^63, the delta engine's switch, started on a delta that counts
  -- nothing yet, reports no more pods created than the count is above the pods that it was given,
  -- no more removed than it is below them, and never both; errors in the middle included.
  pub converge-Bounded :
      (dep : DeploymentSpec) (name : Str) (live : List PodSpec) (delta : Delta) (d : ℕ)
      → dep.desired_replicas ≡ pos d
      → d < 2 ^ 63
      → length live < 2 ^ 63
      → delta.created ≡ 0
      → delta.removed ≡ 0
      → Returns (Bounded d (length live)) (converge fl e dep name live delta)
  unfolding converge
  converge-Bounded dep name live delta d p dh lh cz rz =
      let n = length live in
      Returns-if (ltb_ℤ (pos n) dep.desired_replicas) _ _
        (λ below.
          let short = shortfall dep.desired_replicas d n p below dh in
          Returns-bind (AtMost (pos_part (sub64 dep.desired_replicas (pos n)))) _ _
            (schedule_replicas-AtMost fl e dep _)
            λ outcome made.
              Returns-pure _
                (inr (grows d n (length outcome.0) _ short.0 short.1 made), inl rz, inr rz))
        (λ not_below.
          Returns-if (ltb_ℤ dep.desired_replicas (pos n)) _ _
            (λ above.
              let over = surplus dep.desired_replicas d n p above lh in
              Returns-bind
                (Removes (length (select_victims live (sub64 (pos n) dep.desired_replicas)))) _ _
                (remove_pods-Removes name _)
                λ outcome gone.
                  Returns-pure _
                    (inl cz, inr (shrinks d live _ outcome.0 over.0 over.1 gone), inl cz))
            (λ level. Returns-pure _ (inl cz, inl rz, inl cz)))
