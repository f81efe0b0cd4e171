-- ===== src/Api/Logs/Stream.antt =====
-- internal/api/dashboard.go: which entries of a stream one read of the log sends.
use orchestration.Prelude.{
  ℕ, suc, ◌≡◌, refl, ap, ◌∙◌, inl, inr, Option, none, some, List, [], ◌∷◌, ◌++◌, map, reverse, take,
  All, All-append, All-map,
}
use orchestration.Prelude.Decimal.{format_nat_head}
use orchestration.Api.Logs.{LogEntry, log_lines, lines_read, continue_from}
use orchestration.Api.Logs.Frames.{Stamped, raw, Later, Fits, IsIncreasing, All-reverse}
use orchestration.Api.Logs.Order.{
  IsStream, AtMost, NotBack, Reached, IsAfter, IsUpTo, id_of, line_of, sent_of, Later-AtMost,
  AtMost-AtMost, All-sent_of, sent_of-IsIncreasing, sent_of-IsAfter, IsIncreasing-append,
  log_lines-map, take-IsStream, IsStream-Fits, reverse-IsIncreasing, map-reverse,
}

-- A frame after `since` has sent entries that are later, in the order of the stream, and the last one
-- that was sent is now `next`, or an entry after all of these.
pub record IsSending (since : Option Stamped) (lines : List LogEntry) (next : Option Stamped)
    : Type 0 where
  pub sent : List Stamped
  pub same : lines ≡ map line_of sent
  pub rising : IsIncreasing sent
  pub after : All (IsAfter since) sent
  pub up_to : All (IsUpTo next) sent
  pub onward : (y : Stamped) → IsAfter next y → IsAfter since y

pub sends_nothing : (since : Option Stamped) → IsSending since [] since
sends_nothing since = record {
  sent = [];
  same = refl;
  rising = tt;
  after = tt;
  up_to = tt;
  onward = λ y h. h;
}

lines_read-map :
    (since : Option Stamped) (x : Stamped) (xs : List Stamped)
    → (lines_read (id_of since) (map raw (x ∷ xs))).0
      ≡ map line_of (sent_of since (reverse (x ∷ xs)))
unfolding lines_read
lines_read-map since x xs =
    ap (log_lines (id_of since)) (map-reverse (x ∷ xs)) ∙ log_lines-map since (reverse (x ∷ xs))

continue_raw :
    (since : Option Stamped) (x : Stamped) (xs : List Stamped)
    → continue_from (id_of since) (lines_read (id_of since) (map raw (x ∷ xs))).1 ≡ (raw x).0
unfolding lines_read continue_from
continue_raw since x xs = let (c, s, p, d) = format_nat_head x.0.0 in rw p refl

-- What one read of a stream sends, and where it goes on from.
pub read_lem :
    (since : Option Stamped) (count : ℕ) (stream : List Stamped)
    → IsStream stream
    → Reached since stream
    → let read = lines_read (id_of since) (map raw (take (suc count) stream)) in
      (next : Option Stamped) × (continue_from (id_of since) read.1 ≡ id_of next)
      × Reached next stream
      × IsSending since read.0 next
unfolding lines_read continue_from
read_lem none count [] h k = (none, refl, tt, sends_nothing none)
read_lem (some s) count [] h k = absurd k
read_lem since count (x ∷ xs) h k =
    let part = x ∷ take count xs in
    let stream : IsStream part = take-IsStream (suc count) (x ∷ xs) h in
    let below : All (λ y. AtMost y x) part =
      (inl refl, All-map (λ y l. inr l) (take count xs) (stream.1)) in
    (
      some x,
      continue_raw since x (take count xs),
      (h.0, inl refl),
      record {
        sent = sent_of since (reverse part);
        same = lines_read-map since x (take count xs);
        rising = sent_of-IsIncreasing since (reverse part) (reverse-IsIncreasing part stream);
        after =
            sent_of-IsAfter since (reverse part) (fits since k)
              (All-reverse Fits part (IsStream-Fits part stream));
        up_to =
            All-sent_of (λ y. AtMost y x) since (reverse part)
              (All-reverse (λ y. AtMost y x) part below);
        onward = onward since k;
      },
    )
  where
    fits :
        (since : Option Stamped) → Reached since (x ∷ xs) → (s : Stamped) → since ≡ some s → Fits s
    fits none k s e = cc
    fits (some t) k s e = let same : t ≡ s = cc in rw same at k.0

    onward :
        (since : Option Stamped)
        → Reached since (x ∷ xs)
        → (y : Stamped) → IsAfter (some x) y
        → IsAfter since y
    onward none k y l = tt
    onward (some s) k y l = Later-AtMost s x y k.1 l

-- The stream may have grown, or lost old entries, since.
pub Reached-NotBack :
    (since : Option Stamped) (old new : List Stamped)
    → Reached since old
    → NotBack old new
    → Reached since new
Reached-NotBack none old new h k = tt
Reached-NotBack (some s) [] new h k = absurd h
Reached-NotBack (some s) (x ∷ old) [] h k = absurd k
Reached-NotBack (some s) (x ∷ old) (y ∷ new) h k = (h.0, AtMost-AtMost s x y h.1 k)

-- What two parts of a stream of frames send, one after the other.
pub IsIncreasing-sent :
    (since next : Option Stamped) (lines : List LogEntry) (here : IsSending since lines next)
    (later : List Stamped)
    → IsIncreasing later
    → All (IsAfter next) later
    → IsIncreasing (here.sent ++ later) × All (IsAfter since) (here.sent ++ later)
IsIncreasing-sent since next lines here later h k = (
  IsIncreasing-append here.sent later here.rising h
      (All-map (λ x u. All-map (λ y l. between next x y u l) later k) here.sent here.up_to),
  All-append (IsAfter since) here.sent later here.after (All-map (λ y l. here.onward y l) later k),
)
  where
    between : (next : Option Stamped) (x y : Stamped) → IsUpTo next x → IsAfter next y → Later x y
    between none x y u l = absurd u
    between (some s) x y u l = Later-AtMost x s y u l
