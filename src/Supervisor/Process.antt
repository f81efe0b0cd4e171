-- ===== src/Supervisor/Process.antt =====
-- internal/supervisor/process.go and identity.go: who a process is. A pid alone names none, since the
-- kernel uses it again; the start time in /proc/<pid>/stat tells two processes apart.
pub mod Stat
use orchestration.Prelude.{
  ℕ, zero, suc, ◌≡◌, Bool, true, false, ◌&&◌, ◌||◌, Option, none, some, List, [], ◌∷◌, ◌++◌, ltb,
  leb, ◌==◌, if◌then◌else◌, length, drop,
}
use orchestration.Prelude.Int.{ℤ, pos, leb_ℤ}
use orchestration.Prelude.Text.{Str, is_space}
use orchestration.Prelude.Decimal.{parse_uint64}
use orchestration.Redis.{Redis}
use orchestration.Client.{Client, pure, observe, ◌>>=◌}
use orchestration.Supervisor.Machine.{Machine}

-- What follows the last closing parenthesis.
unfoldable pub after_close : Str → Option Str
after_close [] = none
after_close (c ∷ s) = elim (after_close s) [
  | some rest ↦ some rest
  | none ↦ if c == b')' then some s else none
]

abbrev pub finish_word : Str → List Str → List Str
finish_word [] words = words
finish_word (c ∷ word) words = (c ∷ word) ∷ words

-- strings.Fields, with the word it is in.
unfoldable pub fields_from : Str → Str → List Str
fields_from word [] = finish_word word []
fields_from word (c ∷ s) =
    let in_word = fields_from (word ++ c ∷ []) s in
    let next_word = fields_from [] s in if is_space c then finish_word word next_word else in_word

abbrev pub fields : Str → List Str
fields s = fields_from [] s

abbrev pub get_elem? {ℓ} : {A : Type ℓ} → List A → ℕ → Option A
get_elem? [] n = none
get_elem? (x ∷ xs) zero = some x
get_elem? (x ∷ xs) (suc n) = get_elem? xs n

-- The fields after the command name, which may itself hold blanks and parentheses.
unfoldable pub stat_fields : Str → Option (List Str)
unfolding after_close fields_from
stat_fields line = elim (after_close line) [
  | none ↦ none
  | some rest ↦ if leb (length rest) 1 then none else some (fields (drop 1 rest))
]

abbrev pub number_field : ℕ → Option (List Str) → Option ℕ
number_field n none = none
number_field n (some words) = elim (get_elem? words n) [
  | none ↦ none
  | some word ↦ parse_uint64 word
]

-- Field 22, counted from the state, which is field 3.
unfoldable pub start_time : Str → Option ℕ
unfolding stat_fields
start_time line = number_field 19 (stat_fields line)

abbrev or_unreadable : Option Str → Option ℕ
or_unreadable none = none
or_unreadable (some line) = start_time line

abbrev same_time : Option ℕ → ℕ → Bool
same_time none want = false
same_time (some got) want = got == want

module _ {r : Redis} (os : Machine) where
  -- `none` is an error.
  unfoldable pub process_start_time : ℤ → Client r (Option ℕ)
  unfolding start_time
  process_start_time pid =
      if leb_ℤ pid (pos 0)
      then pure none
      else (do line ← observe (λ t. os.stat t pid); pure (or_unreadable line))

  unfoldable pub pid_alive : ℤ → Client r Bool
  pid_alive pid = if leb_ℤ pid (pos 0) then pure false else observe (λ t. os.exists t pid)

  unfoldable pub is_same_process : ℤ → ℕ → Client r Bool
  is_same_process pid want = if leb_ℤ pid (pos 0) || want == 0 then pure false else (do
    alive ← pid_alive pid
    (if alive then (do got ← process_start_time pid; pure (same_time got want)) else pure false))
