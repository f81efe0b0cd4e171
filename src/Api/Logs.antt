-- ===== src/Api/Logs.antt =====
-- internal/api/dashboard.go: the log lines of a frame, and the stream of frames.
pub mod Ids
pub mod Frames
pub mod Order
pub mod Stream
pub mod Sent
pub mod Reads
use orchestration.Prelude.{
  ℕ, zero, suc, ◌+◌, ◌-◌, ◌*◌, ◌^◌, ◌≡◌, Bool, true, false, not, ◌||◌, Option, none, some, List, [],
  ◌∷◌, ◌++◌, ltb, ◌==◌, if◌then◌else◌, reverse,
}
use orchestration.Prelude.Text.{Str, codes}
use orchestration.Prelude.Decimal.{is_digit}
use orchestration.Redis.{Redis, Hash}
use orchestration.Client.{
  Result, ok, err, unreachable, Env, Client, pure, fail, try, handle, ◌>>=◌, ◌>>◌,
  stream_read_reverse, observe, cancelled,
}
use orchestration.Schema.Keys.{log_stream_key}
use orchestration.Schema.Codec.{text_at}
use orchestration.Api.Views.{StateSnapshot, snapshot}

-- The value that strconv.ParseUint(s, 10, 64) returns beside its error: zero for a text that is no
-- number, and the greatest value for a number that is too great.
unfoldable pub uint_or_limit : ℕ → Str → ℕ
unfolding is_digit
uint_or_limit n [] = n
uint_or_limit n (c ∷ s) =
    let next = n * 10 + (c - b'0') in
    let rest = uint_or_limit next s in
    if is_digit c then (if ltb next (2 ^ 64) then rest else 2 ^ 64 - 1) else 0

-- strings.Cut(s, "-"); `none` where there is no dash.
unfoldable pub cut_dash : Str → Str × Option Str
cut_dash [] = ([], none)
cut_dash (c ∷ s) = let rest = cut_dash s in if c == b'-' then ([], some s) else (c ∷ rest.0, rest.1)

abbrev sequence_of : Option Str → ℕ
sequence_of none = 0
sequence_of (some s) = uint_or_limit 0 s

unfoldable pub split_stream_id : Str → ℕ × ℕ
unfolding uint_or_limit cut_dash
split_stream_id id = let (ms, seq) = cut_dash id in (uint_or_limit 0 ms, sequence_of seq)

unfoldable pub stream_id_newer : Str → Str → Bool
unfolding split_stream_id
stream_id_newer a b =
    let x = split_stream_id a in
    let y = split_stream_id b in if x.0 == y.0 then ltb y.1 x.1 else ltb y.0 x.0

pub record LogEntry : Type 0 where
  pub id : Str
  pub timestamp : Str
  pub level : Str
  pub component : Str
  pub event_type : Str
  pub message : Str
  pub deployment : Str
  pub pod_id : Str
  pub node_id : Str

unfoldable pub log_entry : Str × Hash → LogEntry
log_entry (id, fields) = record {
  id = id;
  timestamp = text_at fields (codes "timestamp");
  level = text_at fields (codes "level");
  component = text_at fields (codes "component");
  event_type = text_at fields (codes "event_type");
  message = text_at fields (codes "message");
  deployment = text_at fields (codes "deployment_id");
  pod_id = text_at fields (codes "pod_id");
  node_id = text_at fields (codes "node_id");
}

-- Whether an entry goes into a frame; the empty id is before every entry.
unfoldable pub is_sent : Str → Str × Hash → Bool
is_sent [] entry = true
is_sent (c ∷ since) entry = stream_id_newer entry.0 (c ∷ since)

unfoldable pub log_lines : Str → List (Str × Hash) → List LogEntry
unfolding is_sent log_entry
log_lines since [] = []
log_lines since (entry ∷ entries) =
    if is_sent since entry
    then log_entry entry ∷ log_lines since entries
    else log_lines since entries

-- The entries come newest first.
unfoldable pub lines_read : Str → List (Str × Hash) → List LogEntry × Str
unfolding log_lines
lines_read since [] = ([], [])
lines_read since (entry ∷ entries) = (log_lines since (reverse (entry ∷ entries)), entry.0)

pub record Frame : Type 0 where
  pub state : StateSnapshot
  pub logs : List LogEntry

-- The id to go on from.
unfoldable pub continue_from : Str → Str → Str
continue_from since [] = since
continue_from since (c ∷ newest) = c ∷ newest

module _ {r : Redis} (e : Env r) where
  unfoldable pub recent_logs : Str → ℕ → Client r (List LogEntry × Str)
  unfolding lines_read
  recent_logs since count = do
    entries ← stream_read_reverse e log_stream_key count
    pure (lines_read since entries)

-- `accepts` says at which ticks a write to the browser succeeds.
module _ {r : Redis} (e : Env r) (accepts : ℕ → Bool) where
  -- A frame is whole or is not sent; the error is that of a browser that went away.
  send_frame : Str → StateSnapshot → Result (List LogEntry × Str) → Client r (Option Frame × Str)
  unfolding continue_from
  send_frame since state logs = do
    sent ← observe accepts
    (if sent
        then pure (
          some (record { state = state; logs = handle logs (λ x. x.0) (λ _. []) }),
          continue_from since (handle logs (λ x. x.1) (λ _. [])),
        )
        else fail unreachable)

  -- A snapshot that cannot be read costs its frame, and not the stream.
  unfoldable pub send_snapshot : Str → ℕ → Client r (Option Frame × Str)
  unfolding send_frame
  send_snapshot since count = do
    shot ← try (snapshot e)
    handle shot (λ state. do logs ← try (recent_logs e since count); send_frame since state logs)
        (λ _. pure (none, since))

  abbrev framed : Option Frame → List Frame → List Frame
  framed none frames = frames
  framed (some frame) frames = frame ∷ frames

  -- The frames of so many ticks; a write that fails ends the stream.
  stream_ticks : ℕ → Str → Client r (List Frame)
  stream_ticks zero since = pure []
  stream_ticks (suc n) since = do
    sent ← try (send_snapshot since 100)
    handle sent (λ x. do rest ← stream_ticks n x.1; pure (framed x.0 rest)) (λ _. pure [])

  -- handleEvents: a first frame with history, and one at each tick until the browser is gone.
  unfoldable pub handle_events : ℕ → Client r (List Frame)
  unfolding stream_ticks
  handle_events ticks = do
    first ← try (send_snapshot [] 60)
    handle first (λ x. do rest ← stream_ticks ticks x.1; pure (framed x.0 rest)) (λ _. pure [])
