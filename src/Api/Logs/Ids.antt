-- ===== src/Api/Logs/Ids.antt =====
-- internal/api/dashboard.go: streamIDNewer on the ids that Redis gives.
use orchestration.Prelude.{
  ℕ, ◌+◌, ◌-◌, ◌*◌, ◌^◌, ◌≤◌, ◌<◌, ◌≡◌, refl, ◌⊎◌, ◌↔◌, Bool, true, some, [], ◌∷◌, ◌++◌, ltb, ◌==◌,
  if◌then◌else◌, arith, Bool-cases, inl, inr,
}
use orchestration.Prelude.Text.{Str}
use orchestration.Prelude.Decimal.{format_nat, all_digits, all_digits-format_nat, is_digit}
use orchestration.Api.Logs.{uint_or_limit, cut_dash, split_stream_id, stream_id_newer}

all_digits-le : (acc n : ℕ) (s : Str) → all_digits acc s ≡ some n → acc ≤ n
unfolding all_digits
all_digits-le acc n [] h = ground arith
all_digits-le acc n (c ∷ s) h = ground (arith, all_digits-le (acc * 10 + (c - b'0')) n s)

uint_or_limit_lem :
    (acc n : ℕ) (s : Str) → all_digits acc s ≡ some n → n < 2 ^ 64 → uint_or_limit acc s ≡ n
unfolding all_digits uint_or_limit
uint_or_limit_lem acc n [] h k = ground arith
uint_or_limit_lem acc n (c ∷ s) h k = ground (
  arith,
  uint_or_limit_lem (acc * 10 + (c - b'0')) n s,
  all_digits-le (acc * 10 + (c - b'0')) n s,
)

cut_dash_lem :
    (acc n : ℕ) (s t : Str) → all_digits acc s ≡ some n → cut_dash (s ++ b'-' ∷ t) ≡ (s, some t)
unfolding all_digits cut_dash is_digit
cut_dash_lem acc n [] t h = refl
cut_dash_lem acc n (c ∷ s) t h = ground (arith, cut_dash_lem (acc * 10 + (c - b'0')) n s t)

-- An entry's id, as Redis writes it.
abbrev pub stream_id : ℕ → ℕ → Str
stream_id ms seq = format_nat ms ++ b'-' ∷ format_nat seq

split_stream_id_lem :
    (ms seq : ℕ) → ms < 2 ^ 64 → seq < 2 ^ 64 → split_stream_id (stream_id ms seq) ≡ (ms, seq)
unfolding split_stream_id
split_stream_id_lem ms seq h k =
    rw (cut_dash_lem 0 ms (format_nat ms) (format_nat seq) (all_digits-format_nat ms)) (
      rw (
        uint_or_limit_lem 0 ms (format_nat ms) (all_digits-format_nat ms) h,
        uint_or_limit_lem 0 seq (format_nat seq) (all_digits-format_nat seq) k,
      ))

abbrev pub pair_newer : ℕ × ℕ → ℕ × ℕ → Bool
pair_newer x y = if x.0 == y.0 then ltb y.1 x.1 else ltb y.0 x.0

pub stream_id_newer_pairs :
    (a b c d : ℕ)
    → a < 2 ^ 64
    → b < 2 ^ 64
    → c < 2 ^ 64
    → d < 2 ^ 64
    → stream_id_newer (stream_id a b) (stream_id c d) ≡ pair_newer (a, b) (c, d)
unfolding stream_id_newer
stream_id_newer_pairs a b c d ha hb hc hd i =
    pair_newer (split_stream_id_lem a b ha hb i) (split_stream_id_lem c d hc hd i)

pub pair_newer-eq_true :
    (a b c d : ℕ) → pair_newer (a, b) (c, d) ≡ true → (c < a) ⊎ ((a ≡ c) × (d < b))
pair_newer-eq_true a b c d h = elim (Bool-cases (a == c)) [
  | inl e ↦ inr (ground (arith, e), ground (arith, e, h))
  | inr e ↦ inl (ground (arith, e, h))
]

pub eq_true-pair_newer :
    (a b c d : ℕ) → (c < a) ⊎ ((a ≡ c) × (d < b)) → pair_newer (a, b) (c, d) ≡ true
eq_true-pair_newer a b c d (inl h) = ground arith
eq_true-pair_newer a b c d (inr h) = ground (arith, h.0, h.1)

-- One id is newer than another exactly when its milliseconds are greater, or they are equal and its
-- sequence number is greater, for every two ids of numbers below 2^64.
pub stream_id_newer_lem :
    (a b c d : ℕ)
    → a < 2 ^ 64
    → b < 2 ^ 64
    → c < 2 ^ 64
    → d < 2 ^ 64
    → (stream_id_newer (stream_id a b) (stream_id c d) ≡ true) ↔ ((c < a) ⊎ ((a ≡ c) × (d < b)))
stream_id_newer_lem a b c d ha hb hc hd =
    rw (stream_id_newer_pairs a b c d ha hb hc hd)
      (pair_newer-eq_true a b c d, eq_true-pair_newer a b c d)
