-- ===== src/Controller/Replica/Victims.antt =====
-- internal/controller/replica.go: the choice of pods in a scale-down.
use orchestration.Prelude.{
  ℕ, zero, suc, ◌≤◌, ◌≡◌, refl, sym, ◌∙◌, Bool, true, false, any, ◌==◌, List, [], ◌∷◌, ◌++◌, All,
  All-map, length, take, drop, take-append-drop, length-take, Bool-cases, inl, inr, arith,
}
use mathlib.Core.List.{Perm}
use Prim.Native.Nat.{min}
use orchestration.Prelude.Int.{pos, ltb_ℤ}
use orchestration.Prelude.Text.{Str, codes, str_eq, str_lt, str_eq_iff, str_lt_irrefl, str_lt_total}
use orchestration.Prelude.Sort.{
  IsSorted, IsStrictWeak, sort_by, sort_by-IsSorted, sort_by-perm, length-sort_by,
}
use orchestration.Schema.Codec.{PodSpec}
use orchestration.Scheduler.Order.{str_lt-IsStrictWeak}
use orchestration.Controller.Replica.{status_priority, removed_before, select_victims}

pub removed_before-IsStrictWeak : IsStrictWeak removed_before
unfolding removed_before
removed_before-IsStrictWeak = record {
  asym = λ x y h. ground (
    arith,
    str_eq_iff x.created_at y.created_at,
    str_eq_iff y.created_at x.created_at,
    str_lt-IsStrictWeak.asym y.created_at x.created_at,
    str_lt-IsStrictWeak.asym y.pod_id x.pod_id,
    h,
  );
  neg_trans = λ x y z h k. ground (
    arith,
    str_eq_iff x.created_at y.created_at,
    str_eq_iff y.created_at x.created_at,
    str_eq_iff y.created_at z.created_at,
    str_eq_iff z.created_at y.created_at,
    str_eq_iff x.created_at z.created_at,
    str_eq_iff z.created_at x.created_at,
    str_lt-IsStrictWeak.neg_trans z.created_at y.created_at x.created_at,
    str_lt-IsStrictWeak.neg_trans z.pod_id y.pod_id x.pod_id,
    str_lt_total x.created_at y.created_at,
    str_lt_total y.created_at z.created_at,
    str_lt_total x.created_at z.created_at,
    h,
    k,
  );
}

module _ {ℓ} {A : Type ℓ} (less : A → A → Bool) where
  All-drop {κ} : (P : A → Type κ) (n : ℕ) (xs : List A) → All P xs → All P (drop n xs)
  All-drop P zero xs h = h
  All-drop P (suc n) [] h = tt
  All-drop P (suc n) (x ∷ xs) h = All-drop P n xs h.1

  -- Nothing behind a cut of a sorted list is before anything in front of it.
  cut_sorted :
      (n : ℕ) (xs : List A)
      → IsSorted less xs
      → All (λ v. All (λ k. less k v ≡ false) (drop n xs)) (take n xs)
  cut_sorted zero xs h = tt
  cut_sorted (suc n) [] h = tt
  cut_sorted (suc n) (x ∷ xs) h = (All-drop (λ k. less k x ≡ false) n xs h.0, cut_sorted n xs h.1)

-- The pods that a scale-down keeps.
abbrev pub kept_pods : List PodSpec → ℕ → List PodSpec
kept_pods pods count = drop count (sort_by removed_before pods)

victims_take :
    (pods : List PodSpec) (count : ℕ)
    → select_victims pods (pos count) ≡ take count (sort_by removed_before pods)
unfolding select_victims
victims_take pods count =
    elim (Bool-cases (ltb_ℤ (pos (length (sort_by removed_before pods))) (pos count))) [
      | inl e ↦ rw e (sym (take_all count (sort_by removed_before pods) (ground arith)))
      | inr e ↦ rw e
    ]
  where
    take_all : (n : ℕ) (xs : List PodSpec) → length xs ≤ n → take n xs ≡ xs
    take_all zero [] h = refl
    take_all zero (x ∷ xs) h = absurd (omega arith)
    take_all (suc n) [] h = refl
    take_all (suc n) (x ∷ xs) h = rw (take_all n xs (omega arith))

-- A scale-down by `count` removes that many pods, or all if there are fewer; removed and kept pods
-- together are the pods there were; and no kept pod comes before a removed one in the removal
-- order.
pub select_victims_lem :
    (pods : List PodSpec) (count : ℕ)
    → let victims = select_victims pods (pos count) in
      (length victims ≡ min count (length pods))
      × Perm (victims ++ kept_pods pods count) pods
      × All (λ v. All (λ k. removed_before k v ≡ false) (kept_pods pods count)) victims
select_victims_lem pods count = rw (victims_take pods count) (
  length-take count (sort_by removed_before pods) ∙ rw (length-sort_by removed_before pods),
  rw (take-append-drop count (sort_by removed_before pods)) (sort_by-perm removed_before pods),
  cut_sorted removed_before count (sort_by removed_before pods)
      (sort_by-IsSorted removed_before removed_before-IsStrictWeak pods),
)

-- The statuses of pods that are worth less than any other, the least first.
abbrev pub least_worth : List Str
least_worth =
    codes "Unschedulable" ∷ codes "Failed" ∷ codes "CrashLoopBackOff" ∷ codes "Pending" ∷ []

-- The status is among the first `n` of these.
abbrev pub IsAmong : ℕ → Str → Type 0
IsAmong n status = any (str_eq status) (take n least_worth) ≡ true

-- A pod `v` may be removed while a pod `k` is kept: where `k` has one of these statuses, `v` has it
-- or a lesser one, and of two pods with one status, `v` does not have the lesser text of the creation
-- time, and of two created at one time it does not have the lesser id.
pub record IsFairChoice (v k : PodSpec) : Type 0 where
  pub unschedulable : k.status ≡ codes "Unschedulable" → IsAmong 1 v.status
  pub failed : k.status ≡ codes "Failed" → IsAmong 2 v.status
  pub crashing : k.status ≡ codes "CrashLoopBackOff" → IsAmong 3 v.status
  pub pending : k.status ≡ codes "Pending" → IsAmong 4 v.status
  pub newest : k.status ≡ v.status → str_lt v.created_at k.created_at ≡ false
  pub greatest :
      k.status ≡ v.status → k.created_at ≡ v.created_at → str_lt v.pod_id k.pod_id ≡ false

not_before-priority :
    (v k : PodSpec)
    → removed_before k v ≡ false
    → status_priority v.status ≤ status_priority k.status
unfolding removed_before
not_before-priority v k h = ground arith

IsAmong-status_priority :
    (status : Str)
    → (status_priority status ≤ 0 → IsAmong 1 status)
      × (status_priority status ≤ 1 → IsAmong 2 status)
      × (status_priority status ≤ 2 → IsAmong 3 status)
      × (status_priority status ≤ 3 → IsAmong 4 status)
unfolding status_priority
IsAmong-status_priority status =
    ((λ h. ground arith), (λ h. ground arith), (λ h. ground arith), (λ h. ground arith))

same_status :
    (v k : PodSpec)
    → removed_before k v ≡ false
    → k.status ≡ v.status
    → (str_lt v.created_at k.created_at ≡ false)
      × (k.created_at ≡ v.created_at → str_lt v.pod_id k.pod_id ≡ false)
unfolding removed_before
same_status v k h e =
    let same : (status_priority k.status == status_priority v.status) ≡ true =
      rw e (ground arith) in
    (
      ground (arith, str_eq_iff k.created_at v.created_at, str_lt_irrefl v.created_at, same, h),
      λ f. ground (arith, str_eq_iff k.created_at v.created_at, same, h),
    )

not_before-IsFairChoice : (v k : PodSpec) → removed_before k v ≡ false → IsFairChoice v k
unfolding status_priority
not_before-IsFairChoice v k h =
    let le = not_before-priority v k h in
    let among = IsAmong-status_priority v.status in
    record {
      unschedulable = λ e. among.0 (rw e at le);
      failed = λ e. among.1 (rw e at le);
      crashing = λ e. among.2 (rw e at le);
      pending = λ e. among.3 (rw e at le);
      newest = λ e. (same_status v k h e).0;
      greatest = λ e f. (same_status v k h e).1 f;
    }

-- No pod is removed while one that is worth less is kept: a running pod only if no kept pod is
-- Pending, CrashLoopBackOff, Failed or Unschedulable, and so on down that list; of the pods with one
-- status those with the greatest texts of the creation time are removed, and of those created at one
-- time the ones with the greatest ids.
pub select_victims-priority :
    (pods : List PodSpec) (count : ℕ)
    → All
        (λ v. All (λ k. IsFairChoice v k) (kept_pods pods count))
        (select_victims pods (pos count))
select_victims-priority pods count =
    All-map (λ v h. All-map (λ k q. not_before-IsFairChoice v k q) (kept_pods pods count) h)
      (select_victims pods (pos count)) ((select_victims_lem pods count).2)
