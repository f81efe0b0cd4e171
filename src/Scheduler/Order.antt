-- ===== src/Scheduler/Order.antt =====
-- internal/scheduler/scheduler.go: the order in which nodes are tried.
use orchestration.Prelude.{
  ◌≡◌, true, false, inl, inr, List, [], ◌∷◌, sym, ap, ◌∙◌, All-map, if◌then◌else◌, All, Bool-cases,
  arith,
}
use orchestration.Prelude.Int.{ℤ, pos, ◌≤ℤ◌, sub64, leb_ℤ, ltb_ℤ}
use orchestration.Prelude.Text.{Str, str_lt, str_lt_irrefl, str_lt_trans, str_lt_total}
use orchestration.Prelude.Sort.{IsSorted, IsStrictWeak, sort_by-IsSorted, sort_by-All}
use orchestration.Prelude.Float.{Float, FloatLaws}
use orchestration.Redis.{Redis, Hash}
use orchestration.Client.{Env}
use orchestration.Client.Returns.{
  Returns, Returns-pure, Returns-bind, Returns-handle, Returns-collect, Returns-Any, Any,
}
use orchestration.Schema.Codec.{NodeCapacity, map_to_node_capacity}
use orchestration.Scheduler.{
  Candidate, has_room, left_share, score, tighter, consider, when_fitting, best_fit_order,
}

-- Bytewise order has no two different strings that are equal to it.
pub str_lt-IsStrictWeak : IsStrictWeak str_lt
str_lt-IsStrictWeak = record {
  asym = λ x y h. elim (Bool-cases (str_lt y x)) [ inl k ↦ absurd (clash x y h k) | inr k ↦ k ];
  neg_trans =
      λ x y z h k. elim (Bool-cases (str_lt z x)) [ inl m ↦ absurd (gap x y z h k m) | inr m ↦ m ];
}
  where
    clash : (x y : Str) → str_lt x y ≡ true → str_lt y x ≡ true → ⊥
    clash x y h k = cc (str_lt_trans x y x h k, str_lt_irrefl x)

    gap : (x y z : Str) → str_lt y x ≡ false → str_lt z y ≡ false → str_lt z x ≡ true → ⊥
    gap x y z h k m = elim (Bool-cases (str_lt x y)) [
      | inl a ↦ cc (str_lt_trans z x y m a, k)
      | inr a ↦ cc (str_lt_total x y a h, m, k)
    ]

module _ (fl : Float) (laws : FloatLaws fl) (cpu mem : ℤ) where
  -- Comparing by score and then by name is a strict weak order.
  pub tighter-IsStrictWeak : IsStrictWeak (tighter fl cpu mem)
  unfolding tighter
  tighter-IsStrictWeak = record {
    asym = λ x y h.
        let s = score fl cpu mem x in
        let t = score fl cpu mem y in
        ground (
          arith,
          laws.eq_lem s t,
          laws.eq_lem t s,
          laws.order.asym s t,
          str_lt-IsStrictWeak.asym x.node_id y.node_id,
          h,
        );
    neg_trans = λ x y z h k.
        let s = score fl cpu mem x in
        let t = score fl cpu mem y in
        let u = score fl cpu mem z in
        ground (
          arith,
          laws.eq_lem s t,
          laws.eq_lem t s,
          laws.eq_lem t u,
          laws.eq_lem u t,
          laws.eq_lem s u,
          laws.eq_lem u s,
          laws.order.neg_trans s t u,
          laws.order.neg_trans u t s,
          laws.order.neg_trans t s u,
          laws.order.neg_trans s u t,
          laws.order.neg_trans u s t,
          laws.order.neg_trans t u s,
          laws.order.asym s t,
          laws.order.asym t u,
          laws.order.asym s u,
          str_lt-IsStrictWeak.neg_trans x.node_id y.node_id z.node_id,
          h,
          k,
        );
  }

-- What is free in both dimensions covers the request, by Go's subtraction.
abbrev pub Fits : ℤ → ℤ → Candidate → Type 0
Fits cpu mem c =
    (cpu ≤ℤ sub64 c.capacity.total_cpu c.capacity.allocated_cpu)
    × (mem ≤ℤ sub64 c.capacity.total_mem c.capacity.allocated_mem)

has_room-Fits : (cpu mem : ℤ) (c : Candidate) → has_room cpu mem c.capacity ≡ true → Fits cpu mem c
unfolding has_room
has_room-Fits cpu mem c h = ground (arith, h)

module _ (fl : Float) (cpu mem : ℤ) where
  -- The share of a total that a request leaves free; none where there is no total.
  abbrev pub free_share : ℤ → ℤ → ℤ → fl.F
  free_share total allocated request =
      if leb_ℤ total (pos 0)
      then fl.of_int (pos 0)
      else fl.div (fl.of_int (sub64 (sub64 total allocated) request)) (fl.of_int total)

  -- The shares of CPU and memory that the request leaves free on a node, together.
  abbrev pub left_over : Candidate → fl.F
  left_over c =
      fl.add (free_share c.capacity.total_cpu c.capacity.allocated_cpu cpu)
        (free_share c.capacity.total_mem c.capacity.allocated_mem mem)

  -- `c` may be tried before `d`: it does not leave more free, nor, where both leave the same, have
  -- the greater name.
  abbrev pub MayPrecede : Candidate → Candidate → Type 0
  MayPrecede c d =
      (fl.lt (left_over d) (left_over c) ≡ false)
      × (fl.eq (left_over d) (left_over c) ≡ true → str_lt d.node_id c.node_id ≡ false)

  abbrev pub InOrder : List Candidate → Type 0
  InOrder [] = Unit
  InOrder (c ∷ cs) = All (MayPrecede c) cs × InOrder cs

  share_lem :
      (total : ℤ) (x y : fl.F)
      → (if ltb_ℤ (pos 0) total then x else y) ≡ (if leb_ℤ total (pos 0) then y else x)
  share_lem total x y = ground arith

  score_lem : (c : Candidate) → score fl cpu mem c ≡ left_over c
  unfolding score
  score_lem c =
      let k = c.capacity in
      ap (λ x. fl.add x (left_share fl k.total_mem k.allocated_mem mem)) (share_lem k.total_cpu _ _)
      ∙ ap (λ x. fl.add (free_share k.total_cpu k.allocated_cpu cpu) x) (share_lem k.total_mem _ _)

  tighter-MayPrecede :
      FloatLaws fl → (c d : Candidate) → tighter fl cpu mem d c ≡ false → MayPrecede c d
  unfolding tighter
  tighter-MayPrecede laws c d h =
      rw (sym (score_lem d), sym (score_lem c))
        (
          ground (arith, laws.eq_lem (score fl cpu mem d) (score fl cpu mem c), h),
          λ e. ground (arith, e, h),
        )

  sorted-InOrder :
      FloatLaws fl → (cs : List Candidate) → IsSorted (tighter fl cpu mem) cs → InOrder cs
  sorted-InOrder laws [] h = tt
  sorted-InOrder laws (c ∷ cs) h =
      (All-map (λ d k. tighter-MayPrecede laws c d k) cs h.0, sorted-InOrder laws cs h.1)

module _ {r : Redis} (fl : Float) (laws : FloatLaws fl) (e : Env r) (cpu mem : ℤ) where
  abbrev HasRoom : Candidate → Type 0
  HasRoom c = has_room cpu mem c.capacity ≡ true

  consider-HasRoom :
      (node_id : Str) (h : Hash) → Returns (All HasRoom) (consider fl e cpu mem node_id h)
  unfolding consider
  consider-HasRoom node_id [] = Returns-pure [] tt
  consider-HasRoom node_id (f ∷ h) =
      Returns-handle (map_to_node_capacity (f ∷ h)) _ _ (λ c _. Returns-pure _ (kept c))
        (λ c. Returns-bind Any _ _ (Returns-Any _) λ _ _. Returns-pure [] tt)
    where
      kept :
          (c : NodeCapacity)
          → All HasRoom
              (if has_room cpu mem c then record { node_id = node_id; capacity = c } ∷ [] else [])
      kept c = elim (Bool-cases (has_room cpu mem c)) [
        | inl yes_room ↦ rw yes_room (yes_room, tt)
        | inr full ↦ rw full tt
      ]

  when_fitting-HasRoom : (node_id : Str) → Returns (All HasRoom) (when_fitting fl e cpu mem node_id)
  unfolding when_fitting
  when_fitting-HasRoom node_id =
      Returns-bind Any _ _ (Returns-Any _) λ fields _. consider-HasRoom node_id fields

  -- The candidates that the scheduler tries, in the order in which it tries them: on each, what was
  -- free in its reading covers the request in CPU and in memory; and none leaves more of its CPU and
  -- memory free, as shares of the totals, than one tried after it, or, where both leave the same, has
  -- the greater name.
  pub best_fit_order_lem :
      Returns (λ cs. All (Fits cpu mem) cs × InOrder fl cpu mem cs) (best_fit_order fl e cpu mem)
  unfolding best_fit_order
  best_fit_order_lem = Returns-bind Any _ _ (Returns-Any _) λ live _.
      Returns-bind (All HasRoom) _ _ (Returns-collect HasRoom _ live when_fitting-HasRoom) λ fits h.
        Returns-pure _ (
          All-map (λ c k. has_room-Fits cpu mem c k) _
              (sort_by-All (tighter fl cpu mem) HasRoom fits h),
          sorted-InOrder fl cpu mem laws _
              (sort_by-IsSorted (tighter fl cpu mem) (tighter-IsStrictWeak fl laws cpu mem) fits),
        )
