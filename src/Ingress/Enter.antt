-- ===== src/Ingress/Enter.antt =====
-- internal/ingress/ingress.go: the backends in a form that does not depend on the order of the pods.
use orchestration.Prelude.{
  ◌≡◌, refl, sym, ap, ◌∙◌, true, false, Option, none, some, List, [], ◌∷◌, if◌then◌else◌, arith,
  Bool-cases, inl, inr,
}
use orchestration.Prelude.Int.{ℤ, ltb_ℤ, eq_of_parts}
use orchestration.Prelude.Text.{
  Str, str_eq, str_eq_iff, str_eq_refl, str_lt, str_lt_total, str_lt_irrefl,
}
use orchestration.Prelude.Sort.{IsStrictWeak, insert_by, sort_by, insert_by_comm, sort_by-append}
use orchestration.Schema.Codec.{PodSpec}
use orchestration.Scheduler.Order.{str_lt-IsStrictWeak}
use orchestration.Ingress.{Backends, add_port}

ltb_ℤ-IsStrictWeak : IsStrictWeak ltb_ℤ
ltb_ℤ-IsStrictWeak = record { asym = λ x y h. ground arith; neg_trans = λ x y z h k. ground arith }

ltb_ℤ_total : (a b : ℤ) → ltb_ℤ a b ≡ false → ltb_ℤ b a ≡ false → a ≡ b
ltb_ℤ_total a b h k = ground (arith, eq_of_parts a b)

-- Backends in a form that the order of the pods does not change: sorted by name, ports sorted.
unfoldable pub put_entry : Str → List ℤ → Backends → Backends
put_entry n ports [] = (n, ports) ∷ []
put_entry n ports ((m, qs) ∷ c) =
    let rest = put_entry n ports c in
    if str_lt m n then (m, qs) ∷ rest else (n, ports) ∷ (m, qs) ∷ c

unfoldable pub canonical : Backends → Backends
unfolding put_entry
canonical [] = []
canonical ((n, ports) ∷ b) = put_entry n (sort_by ltb_ℤ ports) (canonical b)

pub enter : Str → ℤ → Backends → Backends
enter n port [] = (n, port ∷ []) ∷ []
enter n port ((m, qs) ∷ c) =
    let rest = enter n port c in
    if str_lt m n
    then (m, qs) ∷ rest
    else if str_eq m n
    then (m, insert_by ltb_ℤ port qs) ∷ c
    else (n, port ∷ []) ∷ (m, qs) ∷ c

unfoldable pub enter_pod : Option PodSpec → Backends → Backends
unfolding enter
enter_pod none c = c
enter_pod (some pod) c = enter pod.deployment pod.host_port c

enter-put_entry_same :
    (n : Str) (port : ℤ) (ports : List ℤ) (c : Backends)
    → enter n port (put_entry n ports c) ≡ put_entry n (insert_by ltb_ℤ port ports) c
unfolding enter put_entry
enter-put_entry_same n port ports [] = rw (str_lt_irrefl n, str_eq_refl n)
enter-put_entry_same n port ports ((m, qs) ∷ c) =
    ground (arith, enter-put_entry_same n port ports c, str_lt_irrefl n, str_eq_refl n)

before : (a b : Str) → str_lt a b ≡ true → str_lt b a ≡ false
before a b = str_lt-IsStrictWeak.asym a b

between : (a b c : Str) → str_lt b a ≡ false → str_lt c b ≡ false → str_lt c a ≡ false
between a b c = str_lt-IsStrictWeak.neg_trans a b c

different : (a b : Str) → str_eq a b ≡ false → str_lt a b ≡ false → str_lt b a ≡ true
different a b h k = ground (arith, str_lt_total a b, str_eq_iff a b)

enter-put_entry :
    (m n : Str) (port : ℤ) (ports : List ℤ) (c : Backends)
    → str_eq n m ≡ false
    → enter m port (put_entry n ports c) ≡ put_entry n ports (enter m port c)
unfolding enter put_entry
enter-put_entry m n port ports [] h = ground (arith, different n m, before n m, before m n)
enter-put_entry m n port ports ((k, qs) ∷ c) h = ground (
  arith,
  enter-put_entry m n port ports c h,
  different n m,
  before n m,
  before m n,
  before k m,
  before k n,
  between n k m,
  between m k n,
  str_eq_iff k m,
  str_eq_iff n m,
)

ports_comm :
    (p q : ℤ) (qs : List ℤ)
    → insert_by ltb_ℤ p (insert_by ltb_ℤ q qs) ≡ insert_by ltb_ℤ q (insert_by ltb_ℤ p qs)
ports_comm p q qs = insert_by_comm ltb_ℤ ltb_ℤ-IsStrictWeak ltb_ℤ_total p q qs

enter_same : (n : Str) (p q : ℤ) (c : Backends) → enter n p (enter n q c) ≡ enter n q (enter n p c)
unfolding enter insert_by
enter_same n p q [] = rw (str_lt_irrefl n, str_eq_refl n) (rw (ports_comm p q []))
enter_same n p q ((k, qs) ∷ c) = ground (
  arith,
  enter_same n p q c,
  ports_comm p q qs,
  ports_comm p q [],
  str_lt_irrefl n,
  str_eq_refl n,
)

enter_apart :
    (n m : Str) (p q : ℤ) (c : Backends)
    → str_eq n m ≡ false
    → enter n p (enter m q c) ≡ enter m q (enter n p c)
unfolding enter
enter_apart n m p q [] h =
    ground (arith, different n m, before n m, before m n, str_eq_iff m n, str_eq_iff n m)
enter_apart n m p q ((k, qs) ∷ c) h = ground (
  arith,
  enter_apart n m p q c h,
  different n m,
  before n m,
  before m n,
  before k m,
  before k n,
  between n k m,
  between m k n,
  str_eq_iff k m,
  str_eq_iff k n,
  str_eq_iff m n,
  str_eq_iff n m,
)

pub enter_comm :
    (n m : Str) (p q : ℤ) (c : Backends) → enter n p (enter m q c) ≡ enter m q (enter n p c)
enter_comm n m p q c = elim (Bool-cases (str_eq n m)) [
  | inl e ↦ rw ((str_eq_iff n m).0 e) (enter_same m p q c)
  | inr e ↦ enter_apart n m p q c e
]

pub canonical-add_port :
    (name : Str) (port : ℤ) (b : Backends)
    → canonical (add_port name port b) ≡ enter name port (canonical b)
unfolding canonical add_port enter sort_by insert_by
canonical-add_port name port [] = refl
canonical-add_port name port ((n, ports) ∷ b) = elim (Bool-cases (str_eq n name)) [
  | inl e ↦
      rw (e, sort_by-append ltb_ℤ ltb_ℤ-IsStrictWeak ltb_ℤ_total ports port)
        (rw (← (str_eq_iff n name).0 e)
          (sym (enter-put_entry_same n port (sort_by ltb_ℤ ports) (canonical b))))
  | inr e ↦ rw e (
      ap (put_entry n (sort_by ltb_ℤ ports)) (canonical-add_port name port b)
      ∙ sym (enter-put_entry name n port (sort_by ltb_ℤ ports) (canonical b) e))
]
