-- ===== src/Supervisor/Telemetry/Ticks.antt =====
-- internal/supervisor/telemetry.go: the CPU time in /proc/<pid>/stat.
use orchestration.Prelude.{ℕ, ◌+◌, ◌%◌, ◌^◌, ◌<◌, ◌≡◌, ap, ◌∙◌, false, some, List, ◌∷◌, ◌++◌, All}
use orchestration.Prelude.Text.{Str, contains}
use orchestration.Prelude.Decimal.{format_nat}
use orchestration.Supervisor.Process.{get_elem?}
use orchestration.Supervisor.Process.Stat.{
  IsWord, unwords, words_of, fields-unwords, stat_fields_lem, number_found, not_empty,
  parse_uint64-format_nat,
}
use orchestration.Supervisor.Telemetry.{cpu_ticks}

-- Whatever the command name holds, blanks and parentheses included, a stat line whose further fields
-- are words without a closing parenthesis yields the sum of the numbers in its fields 14 and 15,
-- both below 2^64, wrapped to 64 bits.
pub cpu_ticks_lem :
    (front : Str) (words : List (Str × ℕ)) (utime stime : ℕ)
    → All IsWord words
    → contains b')' (unwords words) ≡ false
    → get_elem? (words_of words) 11 ≡ some (format_nat utime)
    → get_elem? (words_of words) 12 ≡ some (format_nat stime)
    → utime < 2 ^ 64
    → stime < 2 ^ 64
    → cpu_ticks (front ++ b')' ∷ b' ' ∷ unwords words) ≡ some ((utime + stime) % 2 ^ 64)
unfolding cpu_ticks
cpu_ticks_lem front words utime stime a h u s small_u small_s = rw (
  stat_fields_lem front (unwords words) h (not_empty words 11 _ a u)
      ∙ ap some (fields-unwords words a),
  number_found (words_of words) 11 utime u ∙ parse_uint64-format_nat utime small_u,
  number_found (words_of words) 12 stime s ∙ parse_uint64-format_nat stime small_s,
)
