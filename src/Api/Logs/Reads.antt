-- ===== src/Api/Logs/Reads.antt =====
-- internal/api/dashboard.go: the stream of frames writes nothing.
use orchestration.Prelude.{ℕ, zero, suc, Bool, List}
use orchestration.Prelude.Text.{Str}
use orchestration.Redis.{Redis}
use orchestration.Client.{Env, Result}
use orchestration.Client.Keeps.{Keeps, Stable, flow_rules, env_rules, Keeps-stream_read_reverse}
use orchestration.Api.Views.{StateSnapshot, snapshot}
use orchestration.Api.Views.Reads.{Keeps-snapshot}
use orchestration.Api.Logs.{
  LogEntry, recent_logs, send_frame, send_snapshot, stream_ticks, handle_events,
}

module _ {r : Redis} {P : r.Db → Type 0} (e : Env r) (st : Stable e P) (accepts : ℕ → Bool) where
  snapping : Keeps P (snapshot e)
  snapping = Keeps-snapshot e st

  Keeps-recent_logs : (since : Str) (n : ℕ) → Keeps P (recent_logs e since n)
  unfolding recent_logs
  Keeps-recent_logs since n = search (flow_rules, Keeps-stream_read_reverse e st)

  Keeps-send_frame :
      (since : Str) (state : StateSnapshot) (logs : Result (List LogEntry × Str))
      → Keeps P (send_frame e accepts since state logs)
  unfolding send_frame
  Keeps-send_frame since state logs = search (flow_rules, env_rules)

  Keeps-send_snapshot : (since : Str) (n : ℕ) → Keeps P (send_snapshot e accepts since n)
  unfolding send_snapshot
  Keeps-send_snapshot since n = search (flow_rules, snapping, Keeps-recent_logs, Keeps-send_frame)

  Keeps-stream_ticks : (n : ℕ) (since : Str) → Keeps P (stream_ticks e accepts n since)
  unfolding stream_ticks
  Keeps-stream_ticks zero since = search flow_rules
  Keeps-stream_ticks (suc n) since = search (flow_rules, Keeps-send_snapshot, Keeps-stream_ticks n)

  pub Keeps-handle_events : (ticks : ℕ) → Keeps P (handle_events e accepts ticks)
  unfolding handle_events
  Keeps-handle_events ticks = search (flow_rules, Keeps-send_snapshot, Keeps-stream_ticks)
