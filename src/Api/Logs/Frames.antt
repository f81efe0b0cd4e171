-- ===== src/Api/Logs/Frames.antt =====
-- internal/api/dashboard.go: the log entries of one frame.
use mathlib.Core.List.{map-append, reverse-append, reverse-reverse, append_assoc}
use orchestration.Prelude.{
  ℕ, zero, suc, ◌^◌, ◌≤◌, ◌<◌, ◌≡◌, refl, sym, ap, ◌∙◌, ◌⊎◌, true, false, List, [], ◌∷◌, ◌++◌, map,
  reverse, take, drop, take-append-drop, length, All, All-append, arith, inl, inr, length-append,
}
use orchestration.Prelude.Text.{Str}
use orchestration.Prelude.Decimal.{format_nat_head}
use orchestration.Redis.{Hash}
use orchestration.Api.Logs.{log_entry, is_sent, log_lines, lines_read, stream_id_newer}
use orchestration.Api.Logs.Ids.{stream_id, stream_id_newer_pairs, pair_newer, eq_true-pair_newer}

-- An entry of the stream: its two numbers and its fields.
abbrev pub Stamped : Type 0
Stamped = (ℕ × ℕ) × Hash

abbrev pub raw : Stamped → Str × Hash
raw x = (stream_id x.0.0 x.0.1, x.1)

abbrev pub Later : Stamped → Stamped → Type 0
Later x y = (x.0.0 < y.0.0) ⊎ ((x.0.0 ≡ y.0.0) × (x.0.1 < y.0.1))

abbrev pub Fits : Stamped → Type 0
Fits x = (x.0.0 < 2 ^ 64) × (x.0.1 < 2 ^ 64)

pub is_sent_lem : (x y : Stamped) → is_sent (raw x).0 (raw y) ≡ stream_id_newer (raw y).0 (raw x).0
unfolding is_sent
is_sent_lem x y = let (c, s, p, d) = format_nat_head x.0.0 in rw p

is_sent-Later : (x y : Stamped) → Fits x → Fits y → Later x y → is_sent (raw x).0 (raw y) ≡ true
is_sent-Later x y fx fy l =
    is_sent_lem x y
    ∙ stream_id_newer_pairs y.0.0 y.0.1 x.0.0 x.0.1 fy.0 fy.1 fx.0 fx.1
    ∙ eq_true-pair_newer y.0.0 y.0.1 x.0.0 x.0.1 (later l)
  where
    later : Later x y → (x.0.0 < y.0.0) ⊎ ((y.0.0 ≡ x.0.0) × (x.0.1 < y.0.1))
    later (inl h) = inl h
    later (inr h) = inr (sym h.0, h.1)

not_newer : (a b c d : ℕ) → (a < c) ⊎ ((a ≡ c) × (b < d)) → pair_newer (a, b) (c, d) ≡ false
not_newer a b c d (inl h) = ground arith
not_newer a b c d (inr h) = ground (arith, h.0, h.1)

not_newer_self : (a b : ℕ) → pair_newer (a, b) (a, b) ≡ false
not_newer_self a b = ground arith

is_sent_self : (x : Stamped) → Fits x → is_sent (raw x).0 (raw x) ≡ false
is_sent_self x f =
    is_sent_lem x x
    ∙ stream_id_newer_pairs x.0.0 x.0.1 x.0.0 x.0.1 f.0 f.1 f.0 f.1
    ∙ not_newer_self x.0.0 x.0.1

is_sent_earlier : (x y : Stamped) → Fits x → Fits y → Later y x → is_sent (raw x).0 (raw y) ≡ false
is_sent_earlier x y fx fy l =
    is_sent_lem x y
    ∙ stream_id_newer_pairs y.0.0 y.0.1 x.0.0 x.0.1 fy.0 fy.1 fx.0 fx.1
    ∙ not_newer y.0.0 y.0.1 x.0.0 x.0.1 l

log_lines-append :
    (since : Str) (xs ys : List (Str × Hash))
    → log_lines since (xs ++ ys) ≡ log_lines since xs ++ log_lines since ys
unfolding log_lines
log_lines-append since [] ys = refl
log_lines-append since (x ∷ xs) ys = ground (arith, log_lines-append since xs ys)

log_lines-none :
    (since : Str) (xs : List (Str × Hash))
    → All (λ x. is_sent since x ≡ false) xs
    → log_lines since xs ≡ []
unfolding log_lines
log_lines-none since [] h = refl
log_lines-none since (x ∷ xs) h = rw h.0 (log_lines-none since xs h.1)

log_lines-All :
    (since : Str) (xs : List (Str × Hash))
    → All (λ x. is_sent since x ≡ true) xs
    → log_lines since xs ≡ map log_entry xs
unfolding log_lines
log_lines-All since [] h = refl
log_lines-All since (x ∷ xs) h = rw h.0 (ap (λ l. log_entry x ∷ l) (log_lines-All since xs h.1))

module _ {A : Type 0} where
  length-reverse : (xs : List A) → length (reverse xs) ≡ length xs
  length-reverse [] = refl
  length-reverse (x ∷ xs) =
      ap length (reverse-append (x ∷ []) xs)
      ∙ omega (arith, length-append (reverse xs) (x ∷ []), length-reverse xs)

  pub All-reverse : (P : A → Type 0) (xs : List A) → All P xs → All P (reverse xs)
  All-reverse P [] h = tt
  All-reverse P (x ∷ xs) h =
      rw (reverse-append (x ∷ []) xs)
        (All-append P (reverse xs) (x ∷ []) (All-reverse P xs h.1) (h.0, tt))

  All-drop_append :
      (P : A → Type 0) (k : ℕ) (xs ys : List A)
      → length xs ≤ k
      → All P ys
      → All P (drop k (xs ++ ys))
  All-drop_append P zero [] ys h a = a
  All-drop_append P (suc k) [] [] h a = tt
  All-drop_append P (suc k) [] (y ∷ ys) h a = All-drop_append P k [] ys (omega arith) a.1
  All-drop_append P zero (x ∷ xs) ys h a = absurd (omega arith)
  All-drop_append P (suc k) (x ∷ xs) ys h a = All-drop_append P k xs ys (omega arith) a

  -- The last entry of a list that is not empty.
  abbrev pub final : A → List A → A
  final x [] = x
  final x (y ∷ ys) = final y ys

  split_final :
      (old : List A) (x : A) (ys : List A)
      → (pre : List A) × (old ++ x ∷ ys ≡ pre ++ final x ys ∷ [])
  split_final old x [] = (old, refl)
  split_final old x (y ∷ ys) =
      let (pre, p) = split_final (old ++ x ∷ []) y ys in
      (pre, sym (append_assoc old (x ∷ []) (y ∷ ys)) ∙ p)

  reverse-final :
      (old : List A) (x : A) (ys : List A)
      → (rest : List A) × (reverse (old ++ x ∷ ys) ≡ final x ys ∷ rest)
  reverse-final old x ys =
      let (pre, p) = split_final old x ys in
      (reverse pre, ap reverse p ∙ reverse-append pre (final x ys ∷ []))

-- What is left of the lines when only the newest entries are read: what is cut off was not wanted.
lines_of_newest :
    (since : Str) (k : ℕ) (older newer : List (Str × Hash))
    → All (λ x. is_sent since x ≡ false) older
    → All (λ x. is_sent since x ≡ true) newer
    → length newer ≤ k
    → log_lines since (reverse (take k (reverse (older ++ newer)))) ≡ map log_entry newer
lines_of_newest since k older newer o n h =
    let read = reverse (older ++ newer) in
    let cut : All (λ x. is_sent since x ≡ false) (reverse (drop k read)) =
      All-reverse (λ x. is_sent since x ≡ false) (drop k read)
        (rw (reverse-append older newer) (
          All-drop_append _ k (reverse newer) (reverse older) (rw (length-reverse newer) h)
            (All-reverse _ older o))) in
    let whole : reverse (drop k read) ++ reverse (take k read) ≡ older ++ newer =
      sym (reverse-append (take k read) (drop k read))
      ∙ ap reverse (take-append-drop k read)
      ∙ reverse-reverse (older ++ newer) in
    sym (ap (λ l. l ++ log_lines since (reverse (take k read))) (log_lines-none since _ cut))
    ∙ sym (log_lines-append since (reverse (drop k read)) (reverse (take k read)))
    ∙ ap (log_lines since) whole
    ∙ log_lines-append since older newer
    ∙ rw (log_lines-none since older o) (log_lines-All since newer n)

-- The ids of a stream grow.
abbrev pub IsIncreasing : List Stamped → Type 0
IsIncreasing [] = Unit
IsIncreasing (x ∷ xs) = All (Later x) xs × IsIncreasing xs

older_unsent :
    (old new : List Stamped) (last : Stamped)
    → IsIncreasing (old ++ last ∷ new)
    → All Fits (old ++ last ∷ new)
    → All (λ x. is_sent (raw last).0 x ≡ false) (map raw (old ++ last ∷ []))
older_unsent [] new last i f = (is_sent_self last f.0, tt)
older_unsent (x ∷ old) new last i f =
    (is_sent_earlier last x (fits old f.1) f.0 (reached old i.0), older_unsent old new last i.1 f.1)
  where
    fits : (old : List Stamped) → All Fits (old ++ last ∷ new) → Fits last
    fits [] f = f.0
    fits (y ∷ old) f = fits old f.1

    reached : (old : List Stamped) → All (Later x) (old ++ last ∷ new) → Later x last
    reached [] h = h.0
    reached (y ∷ old) h = reached old h.1

newer_sent :
    (old new : List Stamped) (last : Stamped)
    → IsIncreasing (old ++ last ∷ new)
    → All Fits (old ++ last ∷ new)
    → All (λ x. is_sent (raw last).0 x ≡ true) (map raw new)
newer_sent [] new last i f = go new i.0 f.1
  where
    go :
        (new : List Stamped)
        → All (Later last) new
        → All Fits new
        → All (λ x. is_sent (raw last).0 x ≡ true) (map raw new)
    go [] l g = tt
    go (y ∷ new) l g = (is_sent-Later last y f.0 g.0 l.0, go new l.1 g.1)
newer_sent (x ∷ old) new last i f = newer_sent old new last i.1 f.1

lines_read_lines :
    (since : Str) (entries : List (Str × Hash))
    → (lines_read since entries).0 ≡ log_lines since (reverse entries)
unfolding lines_read log_lines
lines_read_lines since [] = refl
lines_read_lines since (x ∷ entries) = refl

length-raw : (xs : List Stamped) → length (map raw xs) ≡ length xs
length-raw [] = refl
length-raw (x ∷ xs) = omega (arith, length-raw xs)

final-raw : (x : Stamped) (ys : List Stamped) → final (raw x) (map raw ys) ≡ raw (final x ys)
final-raw x [] = refl
final-raw x (y ∷ ys) = final-raw y ys

newest_read :
    (since : Str) (count : ℕ) (x : Str × Hash) (entries rest : List (Str × Hash))
    → entries ≡ x ∷ rest
    → (lines_read since (take (suc count) entries)).1 ≡ x.0
unfolding lines_read
newest_read since count x entries rest p = ap (λ l. (lines_read since (take (suc count) l)).1) p

-- A read of the log that goes on from the entry `last`: if no more entries were added since than one
-- read returns, its lines are exactly the added entries, oldest first, and the id to go on from is
-- that of the newest entry.
pub frame_lem :
    (old new : List Stamped) (last : Stamped) (count : ℕ)
    → IsIncreasing (old ++ last ∷ new)
    → All Fits (old ++ last ∷ new)
    → length new ≤ suc count
    → let read =
        lines_read (raw last).0 (take (suc count) (reverse (map raw (old ++ last ∷ new)))) in
      (read.0 ≡ map log_entry (map raw new)) × (read.1 ≡ (raw (final last new)).0)
frame_lem old new last count i f h =
    let split : map raw (old ++ last ∷ new) ≡ map raw (old ++ last ∷ []) ++ map raw new =
      ap (map raw) (sym (append_assoc old (last ∷ []) new))
      ∙ map-append raw (old ++ last ∷ []) new in
    let (rest, newest) = reverse-final (map raw old) (raw last) (map raw new) in
    (
      lines_read_lines (raw last).0 (take (suc count) (reverse (map raw (old ++ last ∷ new))))
          ∙ ap (λ l. log_lines (raw last).0 (reverse (take (suc count) (reverse l)))) split
          ∙ lines_of_newest (raw last).0 (suc count) (map raw (old ++ last ∷ [])) (map raw new)
              (older_unsent old new last i f) (newer_sent old new last i f) (rw (length-raw new) h),
      newest_read (raw last).0 count _ _ rest
            (ap reverse (map-append raw old (last ∷ new)) ∙ newest)
          ∙ ap (λ x. x.0) (final-raw last new),
    )
