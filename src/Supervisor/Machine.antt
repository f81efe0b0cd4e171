-- ===== src/Supervisor/Machine.antt =====
-- The machine of the agent, as far as the program asks it: processes, /proc, ports, the environment
-- and the clock. It is not part of the repository: its answers are a parameter.
use orchestration.Prelude.{ℕ, Bool, Option, List}
use orchestration.Prelude.Int.{ℤ}
use orchestration.Prelude.Text.{Str}

-- The answers at each tick.
pub record Machine : Type 0 where
  -- kill(pid, 0) succeeds, or fails with EPERM
  pub exists : ℕ → ℤ → Bool
  -- the text of /proc/<pid>/stat
  pub stat : ℕ → ℤ → Option Str
  -- os.Stat succeeds on a path
  pub has_file : ℕ → Str → Bool
  -- /dev/null can be opened
  pub has_null : ℕ → Bool
  -- the pid of a started executable
  pub start : ℕ → Str → Option ℤ
  -- the names in /proc
  pub processes : ℕ → Option (List Str)
  -- the bytes of /proc/<pid>/environ
  pub environ : ℕ → ℤ → Option Str
  -- os.Getpid
  pub self : ℤ
  -- a TCP port can be bound
  pub can_bind : ℕ → ℤ → Bool
  -- a TCP port accepts a connection in time
  pub answers : ℕ → ℤ → Bool
  -- os.Getenv
  pub variable : Str → Str
  -- nanoseconds since 1970
  pub clock : ℕ → ℤ
  -- how often a stopping process is looked at before its grace ends
  pub polls : ℕ
