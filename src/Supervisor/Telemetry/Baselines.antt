-- ===== src/Supervisor/Telemetry/Baselines.antt =====
-- internal/supervisor/telemetry.go: the map of baselines stays as small as the set of pods.
use orchestration.Prelude.{
  ℕ, suc, ◌+◌, ◌≤◌, ◌≡◌, refl, Bool, false, ◌||◌, Option, none, some, List, [], ◌∷◌, any, keep,
  length, All, arith, Bool-cases, inl, inr,
}
use orchestration.Prelude.Int.{ℤ}
use orchestration.Prelude.Text.{Str, str_eq, str_eq_iff}
use orchestration.Prelude.Float.{Float}
use orchestration.Redis.{Redis}
use orchestration.Client.{
  Error, ok, Env, World, Client, pure, try, hash_get, ◌>>=◌, scan_keys, cancelled, warn,
}
use orchestration.Client.Yields.{
  Yields, Ends, ends_rules, Yields-pure, Yields-observe, Yields-try, Yields-bind, Yields-handle,
  Yields-report,
}
use orchestration.Schema.Keys.{pod_key_pattern}
use orchestration.Schema.Codec.{PodSpec}
use orchestration.Supervisor.Machine.{Machine}
use orchestration.Supervisor.Process.{is_same_process, pid_alive, process_start_time}
use orchestration.Supervisor.Telemetry.{
  process_ticks, Sample, Baselines, Sweep, Rate, set_baseline, drop_unseen, finish, publish_change,
  sample_ticks, sample_pod, unless_stopped, sample_keys, collect_once,
}

-- No pod has two baselines.
abbrev pub IsMap : Baselines → Type 0
IsMap [] = Unit
IsMap ((id, s) ∷ last) = All (λ b. str_eq b.0 id ≡ false) last × IsMap last

set_baseline-All :
    (i id : Str) (s : Sample) (last : Baselines)
    → str_eq id i ≡ false
    → All (λ b. str_eq b.0 i ≡ false) last
    → All (λ b. str_eq b.0 i ≡ false) (set_baseline id s last)
unfolding set_baseline
set_baseline-All i id s [] h k = (h, tt)
set_baseline-All i id s ((j, t) ∷ last) h k = elim (Bool-cases (str_eq j id)) [
  | inl e ↦ rw e k
  | inr e ↦ rw e (k.0, set_baseline-All i id s last h k.1)
]

pub set_baseline-IsMap :
    (id : Str) (s : Sample) (last : Baselines) → IsMap last → IsMap (set_baseline id s last)
unfolding set_baseline
set_baseline-IsMap id s [] h = (tt, tt)
set_baseline-IsMap id s ((j, t) ∷ last) h = elim (Bool-cases (str_eq j id)) [
  | inl e ↦ rw e h
  | inr e ↦ rw e (
    set_baseline-All j id s last (ground (arith, str_eq_iff j id, str_eq_iff id j)) h.0,
    set_baseline-IsMap id s last h.1,
  )
]

keep-All :
    (P : Str × Sample → Type 0) (p : Str × Sample → Bool) (last : Baselines)
    → All P last
    → All P (keep p last)
keep-All P p [] h = tt
keep-All P p (b ∷ last) h = elim (Bool-cases (p b)) [
  | inl e ↦ rw e (h.0, keep-All P p last h.1)
  | inr e ↦ rw e (keep-All P p last h.1)
]

keep-IsMap : (p : Str × Sample → Bool) (last : Baselines) → IsMap last → IsMap (keep p last)
keep-IsMap p [] h = tt
keep-IsMap p (b ∷ last) h = elim (Bool-cases (p b)) [
  | inl e ↦ rw e (keep-All _ p last h.0, keep-IsMap p last h.1)
  | inr e ↦ rw e (keep-IsMap p last h.1)
]

-- One more pod seen keeps at most one more baseline.
keep_none :
    (id : Str) (p : Str × Sample → Bool) (last : Baselines)
    → All (λ b. str_eq b.0 id ≡ false) last
    → length (keep (λ b. str_eq b.0 id || p b) last) ≡ length (keep p last)
keep_none id p [] h = refl
keep_none id p (b ∷ last) h = ground (arith, h.0, keep_none id p last h.1)

keep_one :
    (id : Str) (p : Str × Sample → Bool) (last : Baselines)
    → IsMap last
    → length (keep (λ b. str_eq b.0 id || p b) last) ≤ suc (length (keep p last))
keep_one id p [] h = omega arith
keep_one id p (b ∷ last) h = elim (Bool-cases (str_eq b.0 id)) [
  | inl e ↦
      let rest : All (λ x. str_eq x.0 id ≡ false) last = rw ((str_eq_iff b.0 id).0 e) at h.0 in
      ground (arith, keep_none id p last rest)
  | inr e ↦ ground (arith, keep_one id p last h.1)
]

keep_nothing : (last : Baselines) → length (keep (λ b. false) last) ≡ 0
keep_nothing [] = refl
keep_nothing (b ∷ last) = keep_nothing last

length-drop_unseen :
    (last : Baselines) (seen : List Str)
    → IsMap last
    → length (drop_unseen (last, seen)) ≤ length seen
unfolding drop_unseen
length-drop_unseen last [] h = omega (arith, keep_nothing last)
length-drop_unseen last (id ∷ seen) h =
    omega (arith, keep_one id (λ b. any (str_eq b.0) seen) last h, length-drop_unseen last seen h)

drop_unseen-IsMap : (s : Sweep) → IsMap s.0 → IsMap (drop_unseen s)
unfolding drop_unseen
drop_unseen-IsMap (last, seen) h = keep-IsMap _ last h

-- A sweep over `n` keys more, which did not stop early.
abbrev Swept : ℕ → Sweep → Sweep × Option Error → Type 0
Swept n (last, seen) ((last', seen'), stop) =
    (stop ≡ none) × IsMap last' × (length seen' ≤ n + length seen)

module _ {r : Redis} where
  Yields-unless_stopped :
      (n : ℕ) (s : Sweep) (more : Sweep → Client r (Sweep × Option Error))
      (here : Sweep × Option Error)
      → ((s' : Sweep) → IsMap s'.0 → Yields (Swept n s') (more s'))
      → Swept 1 s here
      → Yields (Swept (suc n) s) (unless_stopped more here)
  Yields-unless_stopped n s more (s', some cause) rest k =
      let here : Yields (Swept (suc n) s) (unless_stopped more (s', some cause)) = cc (k.0) in here
  Yields-unless_stopped n s more (s', none) rest k = record {
    at = λ w.
        let (a, v, p, q) = (rest s' k.1).at w in (a, v, p, (q.0, q.1, omega (arith, q.2, k.2)));
  }

module _ {r : Redis} (fl : Float) (rate : Rate fl) (e : Env r) (os : Machine) (node_id : Str)
    (interval : ℤ) where
  Ends-process_ticks : (pod : PodSpec) → Ends (process_ticks fl rate e os node_id interval pod)
  unfolding process_ticks is_same_process pid_alive process_start_time
  Ends-process_ticks pod = search ends_rules depth 12

  module _ (never : (t : ℕ) → e.cancelled t ≡ false) where
    Yields-cancelled : Yields (λ done. done ≡ false) (cancelled e)
    unfolding cancelled
    Yields-cancelled = record { at = λ w. (_, _, refl, never w.tick) }

    Yields-publish_change :
        (pod : PodSpec) (cur : Sample) (prev : Option Sample)
        → Yields (λ stop. stop ≡ none) (publish_change fl rate e os node_id interval pod cur prev)
    unfolding publish_change
    Yields-publish_change pod cur none = Yields-pure none refl
    Yields-publish_change pod cur (some prev) = Yields-bind _ _ _ (Yields-try _) λ sent _.
        Yields-handle sent _ _ (λ _. Yields-pure none refl)
          λ _. Yields-bind _ _ _ Yields-cancelled λ done p.
            rw p (Yields-bind _ _ _ (Yields-report e warn _) (λ _ _. Yields-pure none refl))

    Yields-sample_ticks :
        (pod : PodSpec) (ticks : Option ℕ) (s : Sweep)
        → IsMap s.0
        → Yields (Swept 1 s) (sample_ticks fl rate e os node_id interval pod ticks s)
    unfolding sample_ticks
    Yields-sample_ticks pod none s h = Yields-pure (s, none) (refl, h, omega arith)
    Yields-sample_ticks pod (some ticks) s h =
        Yields-bind (λ x. Unit {0}) _ _ (Yields-observe os.clock (λ n. tt))
          λ clock _.
            Yields-bind (λ stop. stop ≡ none) _ _ (Yields-publish_change pod _ _)
              λ stop p. Yields-pure _ (p, set_baseline-IsMap _ _ s.0 h, omega arith)

    Yields-sample_pod :
        (pod : Option PodSpec) (s : Sweep)
        → IsMap s.0
        → Yields (Swept 1 s) (sample_pod fl rate e os node_id interval pod s)
    unfolding sample_pod
    Yields-sample_pod none s h = Yields-pure (s, none) (refl, h, omega arith)
    Yields-sample_pod (some pod) s h =
        Yields-bind _ _ _ (Ends-process_ticks pod) (λ ticks _. Yields-sample_ticks pod ticks s h)

    Yields-sample_keys :
        (keys : List Str) (s : Sweep)
        → IsMap s.0
        → Yields (Swept (length keys) s) (sample_keys fl rate e os node_id interval keys s)
    unfolding sample_keys
    Yields-sample_keys [] s h = Yields-pure (s, none) (refl, h, omega arith)
    Yields-sample_keys (key ∷ keys) s h =
        Yields-bind _ _ _ (Yields-try (hash_get e key)) λ fields _.
          Yields-bind _ _ _ (Yields-sample_pod _ s h)
            λ here k. Yields-unless_stopped (length keys) s _ here (Yields-sample_keys keys) k

    -- While the sweep is not cancelled, no failure after the scan of the pod keys, of a read, of the
    -- machine or of a publish, makes it fail: it ends without an error. From baselines that hold no
    -- pod twice it leaves baselines that hold no pod twice, and at most as many of them as keys were
    -- found, however many there were before.
    pub collect_once-Bounded :
        (last : Baselines) (keys : List Str) (w v : World r)
        → IsMap last
        → scan_keys e pod_key_pattern w ≡ (ok keys, v)
        → (last' : Baselines) × ((collect_once fl rate e os node_id interval last w).0
            ≡ ok (last', ok tt))
          × IsMap last'
          × (length last' ≤ length keys)
    unfolding collect_once ◌>>=◌ try pure
    collect_once-Bounded last keys w v h scanned =
        let (swept, u, p, q) = (Yields-sample_keys keys (last, []) h).at v in
        ended swept q (rw (scanned, p))
      where
        ended :
            (swept : Sweep × Option Error)
            → Swept (length keys) (last, []) swept
            → (collect_once fl rate e os node_id interval last w).0 ≡ ok (finish swept)
            → (last' : Baselines) × ((collect_once fl rate e os node_id interval last w).0
                ≡ ok (last', ok tt))
              × IsMap last'
              × (length last' ≤ length keys)
        ended (s, none) q eq =
            (_, eq, drop_unseen-IsMap s q.1, omega (arith, length-drop_unseen s.0 s.1 q.1, q.2))
        ended (s, some cause) q eq = let stopped : some cause ≡ none = q.0 in cc
