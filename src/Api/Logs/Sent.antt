-- ===== src/Api/Logs/Sent.antt =====
-- internal/api/dashboard.go: the log entries in the frames that one browser gets, handleEvents whole.
use mathlib.Core.List.{map-append}
use orchestration.Prelude.{
  ℕ, zero, suc, ◌≡◌, refl, sym, ap, ◌∙◌, Bool, Option, none, some, List, [], ◌∷◌, ◌++◌, map, take,
  All,
}
use orchestration.Prelude.Text.{Str}
use orchestration.Redis.{Redis}
use orchestration.Schema.Keys.{log_stream_key}
use orchestration.Client.{
  Result, ok, err, Env, World, Client, pure, try, handle, ◌>>=◌, stream_read_reverse,
}
use orchestration.Client.Keeps.{Stable}
use orchestration.Client.Runs.{
  Runs, Either, Runs-pure, Runs-try, Runs-Keeps, Runs-observe, Runs-if, Runs-fail, Runs-read,
  Runs-bind,
}
use orchestration.Api.Views.{StateSnapshot}
use orchestration.Api.Views.Reads.{Keeps-snapshot}
use orchestration.Api.Logs.{
  LogEntry, Frame, continue_from, recent_logs, send_frame, send_snapshot, framed, stream_ticks,
  handle_events,
}
use orchestration.Api.Logs.Frames.{Stamped, raw, IsIncreasing}
use orchestration.Api.Logs.Order.{IsStream, NotBack, Reached, IsAfter, id_of, line_of}
use orchestration.Api.Logs.Stream.{
  IsSending, sends_nothing, read_lem, Reached-NotBack, IsIncreasing-sent,
}

abbrev logs_of : Option Frame → List LogEntry
logs_of none = []
logs_of (some frame) = frame.logs

-- The log entries of all frames, one after the other.
abbrev pub lines_of : List Frame → List LogEntry
lines_of [] = []
lines_of (frame ∷ frames) = frame.logs ++ lines_of frames

-- The frames send entries of growing ids, all after `since`.
abbrev pub IsSent : Option Stamped → List Frame → Type 0
IsSent since frames =
    (sent : List Stamped) × (lines_of frames ≡ map line_of sent)
    × IsIncreasing sent
    × All (IsAfter since) sent

module _ {r : Redis} (e : Env r) (accepts : ℕ → Bool) where
  lines_of-framed :
      (f : Option Frame) (frames : List Frame)
      → lines_of (framed e accepts f frames) ≡ logs_of f ++ lines_of frames
  lines_of-framed none frames = refl
  lines_of-framed (some frame) frames = refl

  framed-IsSent :
      (since next : Option Stamped) (f : Option Frame) (rest : List Frame)
      → IsSending since (logs_of f) next
      → IsSent next rest
      → IsSent since (framed e accepts f rest)
  framed-IsSent since next f rest here (later, same, rising, after) =
      let both = IsIncreasing-sent since next (logs_of f) here later rising after in
      (
        here.sent ++ later,
        lines_of-framed f rest
            ∙ ap (λ l. l ++ lines_of rest) here.same
            ∙ ap (λ l. map line_of here.sent ++ l) same
            ∙ sym (map-append line_of here.sent later),
        both.0,
        both.1,
      )

module _ {r : Redis} (e : Env r) (accepts : ℕ → Bool) (log : r.Db → List Stamped)
    (read : (db : r.Db) (count : ℕ)
      → r.xrevrange db log_stream_key count ≡ map raw (take count (log db)))
    (grows : (n : ℕ) (db : r.Db)
      → IsStream (log db)
      → IsStream (log (e.others n db)) × NotBack (log db) (log (e.others n db))) where
  abbrev At : Option Stamped → r.Db → Type 0
  At since db = IsStream (log db) × Reached since (log db)

  At-Stable : (since : Option Stamped) → Stable e (At since)
  At-Stable since = record {
    at = λ n db h.
        let (stream, onward) = grows n db h.0 in
        (stream, Reached-NotBack since (log db) (log (e.others n db)) h.1 onward);
  }

  abbrev GoesOn : Option Stamped → List LogEntry → Str → r.Db → Type 0
  GoesOn since lines id db =
      (next : Option Stamped) × (id ≡ id_of next) × At next db × IsSending since lines next

  abbrev WasRead : Option Stamped → Result (List LogEntry × Str) → r.Db → Type 0
  WasRead since =
      Either (λ lines db. GoesOn since lines.0 (continue_from (id_of since) lines.1) db)
        (λ c db. At since db)

  recent_logs-Runs :
      (since : Option Stamped) (count : ℕ)
      → Runs (At since) (WasRead since) (recent_logs e (id_of since) (suc count))
  unfolding recent_logs stream_read_reverse
  recent_logs-Runs since count =
      Runs-bind (λ entries db. (entries ≡ map raw (take (suc count) (log db))) × At since db) _ _
        (Runs-read e (λ db. r.xrevrange db log_stream_key (suc count)) (At-Stable since)
          (λ db h. (read db (suc count), h)) (λ c db h. h))
        λ entries. Runs-pure _ λ db h.
          let (next, same, reached, sending) = read_lem since count (log db) h.1.0 h.1.1 in
          rw (h.0) (next, same, (h.1.0, reached), sending)

  abbrev WasFramed : Option Stamped → Result (Option Frame × Str) → r.Db → Type 0
  WasFramed since = Either (λ x db. GoesOn since (logs_of x.0) x.1 db) (λ c db. Unit {0})

  send_frame-Runs :
      (since : Option Stamped) (state : StateSnapshot) (logs : Result (List LogEntry × Str))
      → Runs (WasRead since logs) (WasFramed since) (send_frame e accepts (id_of since) state logs)
  unfolding send_frame continue_from
  send_frame-Runs since state (ok lines) =
      Runs-bind (λ sent db. WasRead since (ok lines) db) _ _ (Runs-observe accepts (λ n db h. h))
        λ sent. Runs-if sent _ _ (Runs-pure _ (λ db h. h)) (Runs-fail _ (λ db h. tt))
  send_frame-Runs since state (err c) =
      Runs-bind (λ sent db. At since db) _ _ (Runs-observe accepts (λ n db h. h))
        λ sent.
          Runs-if sent _ _ (Runs-pure _ (λ db h. (since, refl, h, sends_nothing since)))
            (Runs-fail _ (λ db h. tt))

  send_snapshot-Runs :
      (since : Option Stamped) (count : ℕ)
      → Runs (At since) (WasFramed since) (send_snapshot e accepts (id_of since) (suc count))
  unfolding send_snapshot
  send_snapshot-Runs since count =
      Runs-bind (λ shot db. At since db) _ _
        (Runs-try _ (Runs-Keeps _ (Keeps-snapshot e (At-Stable since)))) λ shot. framing shot
    where
      framing :
          (shot : Result StateSnapshot)
          → Runs (At since) (WasFramed since) (
              handle shot
                (λ state. do
                  logs ← try (recent_logs e (id_of since) (suc count))
                  send_frame e accepts (id_of since) state logs)
                (λ _. pure (none, id_of since)))
      framing (ok state) =
          Runs-bind (WasRead since) _ _ (Runs-try _ (recent_logs-Runs since count))
            λ logs. send_frame-Runs since state logs
      framing (err c) = Runs-pure _ (λ db h. (since, refl, h, sends_nothing since))

  abbrev WasSent : Option Stamped → Result (List Frame) → r.Db → Type 0
  WasSent since = Either (λ frames db. IsSent since frames) (λ c db. ⊥)

  -- What is sent with a frame, and what is sent after it.
  then-Runs :
      (since : Option Stamped) (rest : Str → Client r (List Frame))
      → ((next : Option Stamped) → Runs (At next) (WasSent next) (rest (id_of next)))
      → (x : Result (Option Frame × Str))
      → Runs
          (WasFramed since x)
          (WasSent since)
          (handle x (λ y. do frames ← rest y.1; pure (framed e accepts y.0 frames)) (λ _. pure []))
  then-Runs since rest go (ok (f, id)) = record {
    at = λ w k.
        let (next, same, h, sending) = k in
        let more : Runs (At next) (WasSent since)
            (do frames ← rest (id_of next); pure (framed e accepts f frames)) =
          Runs-bind (λ frames db. IsSent next frames) _ _ (found next (go next))
            (λ frames.
              Runs-pure _ (λ db q. framed-IsSent e accepts since next f frames sending q)) in
        rw same (more.at w h);
  }
    where
      found :
          (next : Option Stamped)
          → Runs (At next) (WasSent next) (rest (id_of next))
          → Runs
              (At next)
              (Either (λ frames db. IsSent next frames) (λ c db. ⊥))
              (rest (id_of next))
      found next k = k
  then-Runs since rest go (err c) = Runs-pure _ (λ db h. ([], refl, tt, tt))

  stream_ticks-Runs :
      (n : ℕ) (since : Option Stamped)
      → Runs (At since) (WasSent since) (stream_ticks e accepts n (id_of since))
  unfolding stream_ticks
  stream_ticks-Runs zero since = Runs-pure _ (λ db h. ([], refl, tt, tt))
  stream_ticks-Runs (suc n) since =
      Runs-bind (WasFramed since) _ _ (Runs-try _ (send_snapshot-Runs since 99))
        λ x. then-Runs since (stream_ticks e accepts n) (stream_ticks-Runs n) x

  -- Over a server that answers a reverse read of the log with its newest entries, and as long as the
  -- log stays a stream of growing ids of 64-bit numbers whose newest entry does not go back (entries
  -- may be added, and old ones dropped): whatever fails, handleEvents ends without an error of its
  -- own, and the frames of one browser together carry entries of growing ids, so that none is sent
  -- twice and each comes after those before it in the stream.
  pub handle_events_lem :
      (ticks : ℕ) (w : World r)
      → IsStream (log w.db)
      → (frames : List Frame) × ((handle_events e accepts ticks w).0 ≡ ok frames)
        × ((sent : List Stamped) × (lines_of frames ≡ map line_of sent) × IsIncreasing sent)
  unfolding handle_events
  handle_events_lem ticks w h = told (handle_events e accepts ticks w).0 refl (run.at w (h, tt))
    where
      run : Runs (At none) (WasSent none) (handle_events e accepts ticks)
      run =
          Runs-bind (WasFramed none) _ _ (Runs-try _ (send_snapshot-Runs none 59))
            λ x. then-Runs none (stream_ticks e accepts ticks) (stream_ticks-Runs ticks) x

      told :
          (x : Result (List Frame))
          → (handle_events e accepts ticks w).0 ≡ x
          → WasSent none x (handle_events e accepts ticks w).1.db
          → (frames : List Frame) × ((handle_events e accepts ticks w).0 ≡ ok frames)
            × ((sent : List Stamped) × (lines_of frames ≡ map line_of sent) × IsIncreasing sent)
      told (ok frames) p (sent, same, rising, after) = (frames, p, (sent, same, rising))
      told (err c) p k = absurd k
