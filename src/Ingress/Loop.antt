-- ===== src/Ingress/Loop.antt =====
-- internal/ingress/ingress.go: Run. What arrives on its channels is a list of signals, in the order
-- in which the select takes them.
use orchestration.Prelude.{
  ◌≡◌, refl, true, false, Option, none, some, List, [], ◌∷◌, ◌++◌, if◌then◌else◌, arith,
}
use orchestration.Prelude.Int.{ℤ, ◌+ℤ◌, ◌≤ℤ◌, ◌<ℤ◌, leb_ℤ}
use orchestration.Prelude.Text.{Str, codes}
use orchestration.Redis.{Redis}
use orchestration.Client.{
  Result, ok, err, error, Env, World, Client, pure, continue, ◌>>=◌, ◌>>◌, cancelled, report,
}
use orchestration.Ingress.{Config, Host, sync}

pub data Signal : Type 0 where
  -- a change that watch passed on, at a time
  change : ℤ → Signal
  -- a look at the debounce channel, at a time
  timer : ℤ → Signal
  resync : Signal

pub record LoopState : Type 0 where
  -- the controller's lastWritten
  pub last : Str
  -- when the debounce timer fires; `none` is the nil channel
  pub armed : Option ℤ

module _ {r : Redis} (e : Env r) (host : Host) (cfg : Config) where
  after_sync : Str × Result (Unit {0}) → Client r Str
  after_sync (last, ok done) = pure last
  after_sync (last, err cause) = do
    gone ← cancelled e
    (if gone then pure tt else report e error (codes "ingress_sync_failed"))
    pure last

  unfoldable pub sync_or_log : Str → Client r Str
  unfolding after_sync
  sync_or_log last = do out ← sync e host cfg last; after_sync out

  -- A nil channel never fires.
  expire : Option ℤ → ℤ → LoopState → Client r LoopState
  expire none now st = pure st
  expire (some due) now st =
      if leb_ℤ due now
      then (do last ← sync_or_log st.last; pure (record { last = last; armed = none }))
      else pure st

  unfoldable pub on_signal : Signal → LoopState → Client r LoopState
  unfolding expire
  on_signal (change now) st = pure (record st { armed = some (now +ℤ cfg.debounce) })
  on_signal (timer now) st = expire st.armed now st
  on_signal resync st = do last ← sync_or_log st.last; pure (record st { last = last })

  unfoldable pub run_loop : List Signal → LoopState → Client r LoopState
  run_loop [] st = pure st
  run_loop (signal ∷ signals) st = do next ← on_signal signal st; run_loop signals next

  -- One Sync before the loop.
  unfoldable pub run : List Signal → Client r LoopState
  run signals = do last ← sync_or_log []; run_loop signals (record { last = last; armed = none })

-- Signals of which none but changes has an effect: the timer, due at a time, is moved by every change
-- and is looked at only before it is due.
abbrev pub IsBurst : ℤ → ℤ → List Signal → Type 0
IsBurst debounce due [] = Unit
IsBurst debounce due (change now ∷ signals) = IsBurst debounce (now +ℤ debounce) signals
IsBurst debounce due (timer now ∷ signals) = (now <ℤ due) × IsBurst debounce due signals
IsBurst debounce due (resync ∷ signals) = ⊥

-- When the timer is due after them.
abbrev pub due_after : ℤ → ℤ → List Signal → ℤ
due_after debounce due [] = due
due_after debounce due (change now ∷ signals) = due_after debounce (now +ℤ debounce) signals
due_after debounce due (timer now ∷ signals) = due_after debounce due signals
due_after debounce due (resync ∷ signals) = due_after debounce due signals

due_now : (due now : ℤ) → due ≤ℤ now → leb_ℤ due now ≡ true
due_now due now h = ground arith

bind-pure : {r : Redis} {A : Type 0} (m : Client r A) (w : World r) → (m >>= λ x. pure x) w ≡ m w
unfolding ◌>>=◌ pure
bind-pure {r} {A} m w = whole (m w)
  where
    whole : (x : Result A × World r) → continue x.0 (λ a. pure a) x.1 ≡ x
    whole (ok a, w') = refl
    whole (err c, w') = refl

not_due : (due now : ℤ) → now <ℤ due → leb_ℤ due now ≡ false
not_due due now h = ground arith

module _ {r : Redis} (e : Env r) (host : Host) (cfg : Config) where
  -- One Sync, after which the timer is disarmed.
  abbrev pub synced : Str → Client r LoopState
  synced last = do last' ← sync_or_log e host cfg last; pure (record { last = last'; armed = none })

  armed_burst :
      (signals : List Signal) (last : Str) (due now : ℤ) (w : World r)
      → IsBurst cfg.debounce due signals
      → due_after cfg.debounce due signals ≤ℤ now
      → run_loop e host cfg (signals ++ timer now ∷ []) (record { last = last; armed = some due }) w
        ≡ synced last w
  unfolding run_loop on_signal expire ◌>>=◌ pure
  armed_burst [] last due now w b h = rw (due_now due now h) (bind-pure (synced last) w)
  armed_burst (change t ∷ signals) last due now w b h =
      armed_burst signals last (t +ℤ cfg.debounce) now w b h
  armed_burst (timer t ∷ signals) last due now w b h =
      rw (not_due due t b.0) (armed_burst signals last due now w b.1 h)
  armed_burst (resync ∷ signals) last due now w b h = absurd b

  -- A burst of changes, however long, is answered by exactly one Sync, as soon as the timer is looked
  -- at when no change came for the debounce time; the timer is disarmed then, and before that
  -- nothing is read or written.
  pub run_loop-burst :
      (signals : List Signal) (st : LoopState) (first now : ℤ) (w : World r)
      → IsBurst cfg.debounce (first +ℤ cfg.debounce) signals
      → due_after cfg.debounce (first +ℤ cfg.debounce) signals ≤ℤ now
      → run_loop e host cfg (change first ∷ signals ++ timer now ∷ []) st w ≡ synced st.last w
  unfolding run_loop on_signal ◌>>=◌ pure
  run_loop-burst signals st first now w b h =
      armed_burst signals st.last (first +ℤ cfg.debounce) now w b h
