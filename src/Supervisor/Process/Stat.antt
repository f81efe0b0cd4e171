-- ===== src/Supervisor/Process/Stat.antt =====
-- internal/supervisor/process.go: the text of /proc/<pid>/stat.
use orchestration.Prelude.{
  ℕ, ◌≤◌, ◌<◌, ◌^◌, ◌≡◌, refl, ap, ◌∙◌, Bool, true, false, ◌||◌, Option, none, some, List, [], ◌∷◌,
  ◌++◌, length, All, any, arith,
}
use mathlib.Core.List.{append-nil, append_assoc}
use orchestration.Prelude.Decimal.{
  format_nat, format_nat_head, all_digits, all_digits-format_nat, parse_uint64,
}
use orchestration.Prelude.Text.{Str, is_space, contains}
use orchestration.Supervisor.Process.{
  after_close, fields_from, finish_word, fields, stat_fields, start_time, number_field, get_elem?,
}

after_close-none : (s : Str) → contains b')' s ≡ false → after_close s ≡ none
unfolding after_close contains
after_close-none [] h = refl
after_close-none (c ∷ s) h = ground (arith, after_close-none s)

after_close-last :
    (front s : Str) → contains b')' s ≡ false → after_close (front ++ b')' ∷ s) ≡ some s
unfolding after_close
after_close-last [] s h = rw (after_close-none s h)
after_close-last (c ∷ front) s h = rw (after_close-last front s h)

-- A word without blanks, and the blank behind it.
abbrev pub IsWord : Str × ℕ → Type 0
IsWord ([], gap) = ⊥
IsWord (c ∷ s, gap) = (any is_space (c ∷ s) ≡ false) × (is_space gap ≡ true)

abbrev pub unwords : List (Str × ℕ) → Str
unwords [] = []
unwords ((word, gap) ∷ words) = word ++ gap ∷ unwords words

abbrev pub words_of : List (Str × ℕ) → List Str
words_of [] = []
words_of ((word, gap) ∷ words) = word ∷ words_of words

fields_from-word :
    (word rest done : Str) (gap : ℕ)
    → any is_space word ≡ false
    → is_space gap ≡ true
    → fields_from done (word ++ gap ∷ rest) ≡ finish_word (done ++ word) (fields rest)
unfolding fields_from
fields_from-word [] rest done gap h g = rw (append-nil done, g)
fields_from-word (c ∷ word) rest done gap h g =
    let split : (is_space c ≡ false) × (any is_space word ≡ false) =
      neither (is_space c) (any is_space word) h in
    rw split.0 (
      fields_from-word word rest (done ++ c ∷ []) gap split.1 g
      ∙ ap (λ x. finish_word x (fields rest)) (append_assoc done (c ∷ []) word))
  where
    neither : (a b : Bool) → (a || b) ≡ false → (a ≡ false) × (b ≡ false)
    neither a b h = ground arith

pub fields-unwords :
    (words : List (Str × ℕ)) → All IsWord words → fields (unwords words) ≡ words_of words
unfolding fields_from
fields-unwords [] a = refl
fields-unwords (([], gap) ∷ words) a = absurd a.0
fields-unwords ((c ∷ word, gap) ∷ words) a =
    fields_from-word (c ∷ word) (unwords words) [] gap a.0.0 a.0.1 ∙ rw (fields-unwords words a.1)

pub parse_uint64-format_nat : (n : ℕ) → n < 2 ^ 64 → parse_uint64 (format_nat n) ≡ some n
unfolding parse_uint64
parse_uint64-format_nat n h =
    let (c, s, p, d) = format_nat_head n in
    let q : all_digits 0 (c ∷ s) ≡ some n = rw p at (all_digits-format_nat n) in
    rw p (ground (arith, q))

after_blank : (rest : Str) → contains b')' rest ≡ false → contains b')' (b' ' ∷ rest) ≡ false
unfolding contains
after_blank rest h = h

-- What is read behind the last parenthesis.
pub stat_fields_lem :
    (front rest : Str)
    → contains b')' rest ≡ false
    → 1 ≤ length rest
    → stat_fields (front ++ b')' ∷ b' ' ∷ rest) ≡ some (fields rest)
unfolding stat_fields
stat_fields_lem front rest h n =
    rw (stat_fields, after_close-last front (b' ' ∷ rest) (after_blank rest h)) (ground arith)

pub number_found :
    (words : List Str) (n ticks : ℕ)
    → get_elem? words n ≡ some (format_nat ticks)
    → number_field n (some words) ≡ parse_uint64 (format_nat ticks)
number_found words n ticks h =
    ap
      (λ (x : Option Str). elim x as (λ _. Option ℕ) [
        | none ↦ none
        | some word ↦ parse_uint64 word
      ])
      h

pub not_empty :
    (words : List (Str × ℕ)) (n : ℕ) (word : Str)
    → All IsWord words
    → get_elem? (words_of words) n ≡ some word
    → 1 ≤ length (unwords words)
not_empty [] n word a found = cc
not_empty (([], gap) ∷ words) n word a found = absurd a.0
not_empty ((c ∷ s, gap) ∷ words) n word a found = omega arith

-- Whatever the command name holds, blanks and parentheses included, a stat line whose further fields
-- are words without a closing parenthesis yields the number in its field 22 as the start time, for
-- every number below 2^64.
pub start_time_lem :
    (front : Str) (words : List (Str × ℕ)) (ticks : ℕ)
    → All IsWord words
    → contains b')' (unwords words) ≡ false
    → get_elem? (words_of words) 19 ≡ some (format_nat ticks)
    → ticks < 2 ^ 64
    → start_time (front ++ b')' ∷ b' ' ∷ unwords words) ≡ some ticks
unfolding start_time
start_time_lem front words ticks a h found small =
    ap (number_field 19) (
      stat_fields_lem front (unwords words) h (not_empty words 19 _ a found)
      ∙ ap some (fields-unwords words a))
    ∙ number_found (words_of words) 19 ticks found
    ∙ parse_uint64-format_nat ticks small
