-- ===== src/Api/Logs/Order.antt =====
-- internal/api/dashboard.go: the order of the log's entries, and what a read leaves out.
use mathlib.Core.List.{map-append, reverse-append}
use orchestration.Prelude.{
  ℕ, zero, suc, ◌<◌, ◌≡◌, refl, sym, ap, ◌∙◌, ◌⊎◌, inl, inr, true, Bool-cases, Option, none, some,
  List, [], ◌∷◌, ◌++◌, map, reverse, take, keep, All, All-append, arith,
}
use orchestration.Prelude.Text.{Str}
use orchestration.Api.Logs.{LogEntry, log_entry, is_sent, log_lines}
use orchestration.Api.Logs.Ids.{stream_id_newer_pairs, pair_newer-eq_true}
use orchestration.Api.Logs.Frames.{
  Stamped, raw, Later, Fits, is_sent_lem, IsIncreasing, All-reverse,
}

-- A stream, newest entry first: its ids grow, and their numbers fit in 64 bits.
abbrev pub IsStream : List Stamped → Type 0
IsStream [] = Unit
IsStream (x ∷ xs) = Fits x × All (λ y. Later y x) xs × IsStream xs

abbrev pub AtMost : Stamped → Stamped → Type 0
AtMost x y = (x.0 ≡ y.0) ⊎ Later x y

-- The newest entry of the second stream is not before that of the first.
abbrev pub NotBack : List Stamped → List Stamped → Type 0
NotBack [] ys = Unit
NotBack (x ∷ xs) [] = ⊥
NotBack (x ∷ xs) (y ∷ ys) = AtMost x y

-- What was sent last is not after the newest entry.
abbrev pub Reached : Option Stamped → List Stamped → Type 0
Reached none xs = Unit
Reached (some s) [] = ⊥
Reached (some s) (x ∷ xs) = Fits s × AtMost s x

abbrev pub IsAfter : Option Stamped → Stamped → Type 0
IsAfter none y = Unit
IsAfter (some s) y = Later s y

abbrev pub IsUpTo : Option Stamped → Stamped → Type 0
IsUpTo none y = ⊥
IsUpTo (some s) y = AtMost y s

abbrev pub id_of : Option Stamped → Str
id_of none = []
id_of (some s) = (raw s).0

abbrev pub line_of : Stamped → LogEntry
line_of x = log_entry (raw x)

pub Later-AtMost : (x y z : Stamped) → AtMost x y → Later y z → Later x z
Later-AtMost x y z h k = ground (arith, h, k)

pub AtMost-AtMost : (x y z : Stamped) → AtMost x y → AtMost y z → AtMost x z
AtMost-AtMost x y z h k = ground (arith, h, k)

is_sent-IsAfter :
    (since : Option Stamped) (y : Stamped)
    → ((s : Stamped) → since ≡ some s → Fits s)
    → Fits y
    → is_sent (id_of since) (raw y) ≡ true
    → IsAfter since y
is_sent-IsAfter none y fs fy h = tt
is_sent-IsAfter (some s) y fs fy h =
    let f = fs s refl in
    later (
      pair_newer-eq_true y.0.0 y.0.1 s.0.0 s.0.1 (
        sym (is_sent_lem s y ∙ stream_id_newer_pairs y.0.0 y.0.1 s.0.0 s.0.1 fy.0 fy.1 f.0 f.1)
        ∙ h))
  where
    later : (s.0.0 < y.0.0) ⊎ ((y.0.0 ≡ s.0.0) × (s.0.1 < y.0.1)) → Later s y
    later (inl h) = inl h
    later (inr h) = inr (sym h.0, h.1)

-- The entries that are sent of those that were read.
abbrev pub sent_of : Option Stamped → List Stamped → List Stamped
sent_of since = keep (λ y. is_sent (id_of since) (raw y))

pub log_lines-map :
    (since : Option Stamped) (xs : List Stamped)
    → log_lines (id_of since) (map raw xs) ≡ map line_of (sent_of since xs)
unfolding log_lines
log_lines-map since [] = refl
log_lines-map since (x ∷ xs) = elim (Bool-cases (is_sent (id_of since) (raw x))) [
  | inl e ↦ rw e (ap (λ l. line_of x ∷ l) (log_lines-map since xs))
  | inr e ↦ rw e (log_lines-map since xs)
]

pub All-sent_of :
    (P : Stamped → Type 0) (since : Option Stamped) (xs : List Stamped)
    → All P xs
    → All P (sent_of since xs)
All-sent_of P since [] h = tt
All-sent_of P since (x ∷ xs) h = elim (Bool-cases (is_sent (id_of since) (raw x))) [
  | inl e ↦ rw e (h.0, All-sent_of P since xs h.1)
  | inr e ↦ rw e (All-sent_of P since xs h.1)
]

pub sent_of-IsIncreasing :
    (since : Option Stamped) (xs : List Stamped) → IsIncreasing xs → IsIncreasing (sent_of since xs)
sent_of-IsIncreasing since [] h = tt
sent_of-IsIncreasing since (x ∷ xs) h = elim (Bool-cases (is_sent (id_of since) (raw x))) [
  | inl e ↦ rw e (All-sent_of (Later x) since xs h.0, sent_of-IsIncreasing since xs h.1)
  | inr e ↦ rw e (sent_of-IsIncreasing since xs h.1)
]

pub sent_of-IsAfter :
    (since : Option Stamped) (xs : List Stamped)
    → ((s : Stamped) → since ≡ some s → Fits s)
    → All Fits xs
    → All (IsAfter since) (sent_of since xs)
sent_of-IsAfter since [] f h = tt
sent_of-IsAfter since (x ∷ xs) f h = elim (Bool-cases (is_sent (id_of since) (raw x))) [
  | inl e ↦ rw e (is_sent-IsAfter since x f h.0 e, sent_of-IsAfter since xs f h.1)
  | inr e ↦ rw e (sent_of-IsAfter since xs f h.1)
]

pub IsIncreasing-append :
    (xs ys : List Stamped)
    → IsIncreasing xs
    → IsIncreasing ys
    → All (λ x. All (Later x) ys) xs
    → IsIncreasing (xs ++ ys)
IsIncreasing-append [] ys h k b = k
IsIncreasing-append (x ∷ xs) ys h k b =
    (All-append (Later x) xs ys h.0 b.0, IsIncreasing-append xs ys h.1 k b.1)

module _ {A : Type 0} where
  All-take : (P : A → Type 0) (n : ℕ) (xs : List A) → All P xs → All P (take n xs)
  All-take P zero xs h = tt
  All-take P (suc n) [] h = tt
  All-take P (suc n) (x ∷ xs) h = (h.0, All-take P n xs h.1)

pub take-IsStream : (n : ℕ) (xs : List Stamped) → IsStream xs → IsStream (take n xs)
take-IsStream zero xs h = tt
take-IsStream (suc n) [] h = tt
take-IsStream (suc n) (x ∷ xs) h = (h.0, All-take (λ y. Later y x) n xs h.1, take-IsStream n xs h.2)

pub IsStream-Fits : (xs : List Stamped) → IsStream xs → All Fits xs
IsStream-Fits [] h = tt
IsStream-Fits (x ∷ xs) h = (h.0, IsStream-Fits xs h.2)

pub reverse-IsIncreasing : (xs : List Stamped) → IsStream xs → IsIncreasing (reverse xs)
reverse-IsIncreasing [] h = tt
reverse-IsIncreasing (x ∷ xs) h = rw (reverse-append (x ∷ []) xs) (
    IsIncreasing-append (reverse xs) (x ∷ []) (reverse-IsIncreasing xs h.2) (tt, tt)
      (ends (reverse xs) (All-reverse (λ y. Later y x) xs h.1)))
  where
    ends : (ys : List Stamped) → All (λ y. Later y x) ys → All (λ y. All (Later y) (x ∷ [])) ys
    ends [] k = tt
    ends (y ∷ ys) k = ((k.0, tt), ends ys k.1)

pub map-reverse : (xs : List Stamped) → reverse (map raw xs) ≡ map raw (reverse xs)
map-reverse [] = refl
map-reverse (x ∷ xs) =
    reverse-append (raw x ∷ []) (map raw xs)
    ∙ ap (λ l. l ++ raw x ∷ []) (map-reverse xs)
    ∙ sym (map-append raw (reverse xs) (x ∷ []))
    ∙ sym (ap (map raw) (reverse-append (x ∷ []) xs))
