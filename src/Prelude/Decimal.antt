-- ===== src/Prelude/Decimal.antt =====
-- Decimal texts of integers: strconv.Itoa and FormatInt, and fmt.Sscanf with "%d".
use Prim.Native.Nat.{ℕ, zero, suc, ◌+◌, ◌-◌, ◌*◌, ◌/◌, ◌%◌, ◌^◌, ◌≤◌}
use mathlib.Core.Path.{◌≡◌, refl, ap, ◌∙◌}
use mathlib.Core.Logic.{◌≢◌, inl, inr}
use mathlib.Core.Bool.{Bool, true, false, ◌&&◌, ◌||◌}
use mathlib.Core.Option.{Option, none, some}
use mathlib.Core.List.{[], ◌∷◌}
use native.Mathlib.Omega.{arith}
use orchestration.Prelude.Tests.{ltb, leb, ◌==◌, if◌then◌else◌, Bool-cases}
use orchestration.Prelude.Int.{ℤ, pos, negsuc, IsInt64}
use orchestration.Prelude.Text.{Str, codes}

-- Each round puts the last digit in front of the output. The fuel `n` is enough: a round makes a
-- positive number smaller.
emit : ℕ → ℕ → Str → Str
emit zero n out = out
emit (suc f) n out =
    let rest = emit f (n / 10) ((48 + n % 10) ∷ out) in if n == 0 then out else rest

unfoldable pub format_nat : ℕ → Str
unfolding emit
format_nat zero = codes "0"
format_nat (suc n) = emit (suc n) (suc n) []

unfoldable pub format_int : ℤ → Str
unfolding format_nat
format_int (pos n) = format_nat n
format_int (negsuc n) = b'-' ∷ format_nat (suc n)

unfoldable pub is_digit : ℕ → Bool
is_digit c = leb b'0' c && leb c b'9'

-- The value of the digits that a text begins with, after those already read; the rest is left.
unfoldable pub scan_digits : ℕ → Str → ℕ
unfolding is_digit
scan_digits acc [] = acc
scan_digits acc (c ∷ s) =
    let rest = scan_digits (acc * 10 + (c - b'0')) s in if is_digit c then rest else acc

-- strconv.ParseUint on a text's digits: `none` where another byte stands.
unfoldable pub all_digits : ℕ → Str → Option ℕ
unfolding is_digit
all_digits acc [] = some acc
all_digits acc (c ∷ s) =
    let rest = all_digits (acc * 10 + (c - b'0')) s in if is_digit c then rest else none

-- strconv.ParseUint(s, 10, 64)
unfoldable pub parse_uint64 : Str → Option ℕ
parse_uint64 [] = none
parse_uint64 (c ∷ s) = elim (all_digits 0 (c ∷ s)) [
  | none ↦ none
  | some n ↦ if ltb n (2 ^ 64) then some n else none
]

starts_with_digit : Str → Bool
unfolding is_digit
starts_with_digit [] = false
starts_with_digit (c ∷ s) = is_digit c

-- The magnitude with its sign, refused outside int64.
abbrev signed : Bool → ℕ → Option ℤ
signed true zero = some (pos 0)
signed true (suc n) = if ltb n (2 ^ 63) then some (negsuc n) else none
signed false n = if ltb n (2 ^ 63) then some (pos n) else none

parse_magnitude : Bool → Str → Option ℤ
parse_magnitude negative [] = none
parse_magnitude negative (c ∷ s) = elim (all_digits 0 (c ∷ s)) [
  | none ↦ none
  | some n ↦ signed negative n
]

-- strconv.Atoi, and strconv.ParseInt(s, 10, 64)
unfoldable pub parse_int64 : Str → Option ℤ
unfolding parse_magnitude
parse_int64 [] = none
parse_int64 (c ∷ s) =
    if c == b'-'
    then parse_magnitude true s
    else if c == b'+'
    then parse_magnitude false s
    else parse_magnitude false (c ∷ s)

scan_number : Bool → Str → Option ℤ
unfolding scan_digits starts_with_digit
scan_number negative s = if starts_with_digit s then signed negative (scan_digits 0 s) else none

scan_sign : Str → Option ℤ
unfolding scan_number
scan_sign [] = none
scan_sign (c ∷ s) =
    if c == b'-'
    then scan_number true s
    else if c == b'+'
    then scan_number false s
    else scan_number false (c ∷ s)

-- the blanks that Sscanf skips; a newline is refused by the digit test
unfoldable pub is_blank : ℕ → Bool
is_blank c = c == 32 || c == 9 || c == 11 || c == 12 || c == 13

-- fmt.Sscanf(s, "%d", &n): blanks, a sign, digits; what follows the digits is ignored.
unfoldable pub scan_int : Str → Option ℤ
unfolding is_blank scan_sign
scan_int [] = none
scan_int (c ∷ s) = let rest = scan_int s in if is_blank c then rest else scan_sign (c ∷ s)

scan_digits-emit : (f n : ℕ) (out : Str) → n ≤ f → scan_digits 0 (emit f n out) ≡ scan_digits n out
unfolding emit scan_digits
scan_digits-emit zero n out h = let e : n ≡ 0 = omega arith in rw e
scan_digits-emit (suc f) n out h = elim (Bool-cases (n == 0)) [
  | inl e ↦ let z : n ≡ 0 = ground arith in rw z
  | inr e ↦ rw e (scan_digits-emit f (n / 10) ((48 + n % 10) ∷ out) (ground arith) ∙ shift)
]
  where
    same : n / 10 * 10 + (48 + n % 10 - 48) ≡ n
    same = omega arith

    shift : scan_digits (n / 10) ((48 + n % 10) ∷ out) ≡ scan_digits n out
    shift = ground (arith, ap (λ (k : ℕ). scan_digits k out) same)

all_digits-emit : (f n : ℕ) (out : Str) → n ≤ f → all_digits 0 (emit f n out) ≡ all_digits n out
unfolding emit all_digits
all_digits-emit zero n out h = let e : n ≡ 0 = omega arith in rw e
all_digits-emit (suc f) n out h = elim (Bool-cases (n == 0)) [
  | inl e ↦ let z : n ≡ 0 = ground arith in rw z
  | inr e ↦ rw e (all_digits-emit f (n / 10) ((48 + n % 10) ∷ out) (ground arith) ∙ shift)
]
  where
    same : n / 10 * 10 + (48 + n % 10 - 48) ≡ n
    same = omega arith

    shift : all_digits (n / 10) ((48 + n % 10) ∷ out) ≡ all_digits n out
    shift = ground (arith, ap (λ (k : ℕ). all_digits k out) same)

pub all_digits-format_nat : (n : ℕ) → all_digits 0 (format_nat n) ≡ some n
unfolding format_nat all_digits
all_digits-format_nat zero = refl
all_digits-format_nat (suc n) = all_digits-emit (suc n) (suc n) [] (omega arith)

emit_head :
    (f n : ℕ) (out : Str)
    → n ≤ f
    → n ≢ 0
    → (c : ℕ) × (s : Str) × (emit f n out ≡ c ∷ s) × (is_digit c ≡ true)
unfolding emit is_digit
emit_head zero n out h k = absurd (k (omega arith))
emit_head (suc f) n out h k = elim (Bool-cases (n / 10 == 0)) [
  | inl e ↦ ((48 + n % 10), out, last (ground arith), ground arith)
  | inr e ↦
      let (c, s, p, d) = emit_head f (n / 10) ((48 + n % 10) ∷ out) (omega arith) (ground arith) in
      (c, s, ground arith, d)
]
  where
    last : n / 10 ≡ 0 → emit (suc f) n out ≡ (48 + n % 10) ∷ out
    last e = ground (arith, stop f)
      where
        stop : (g : ℕ) → emit g (n / 10) ((48 + n % 10) ∷ out) ≡ (48 + n % 10) ∷ out
        stop zero = refl
        stop (suc g) = rw e

pub format_nat_head : (n : ℕ) → (c : ℕ) × (s : Str) × (format_nat n ≡ c ∷ s) × (is_digit c ≡ true)
unfolding format_nat is_digit
format_nat_head zero = (48, [], refl, refl)
format_nat_head (suc n) = emit_head (suc n) (suc n) [] (omega arith) (ground arith)

pub scan_digits-format_nat : (n : ℕ) → scan_digits 0 (format_nat n) ≡ n
unfolding format_nat scan_digits
scan_digits-format_nat zero = refl
scan_digits-format_nat (suc n) = scan_digits-emit (suc n) (suc n) [] (omega arith)

scan_number-format_nat : (b : Bool) (n : ℕ) → scan_number b (format_nat n) ≡ signed b n
unfolding scan_number starts_with_digit
scan_number-format_nat b n =
    let (c, s, p, d) = format_nat_head n in
    let q : scan_digits 0 (c ∷ s) ≡ n = rw p at (scan_digits-format_nat n) in
    rw p (ground (arith, ap (signed b) q, d))

-- Scanning the printed form of an int64 gives it back.
pub scan_int-format_int : (z : ℤ) → IsInt64 z → scan_int (format_int z) ≡ some z
unfolding scan_int scan_sign format_int is_digit
scan_int-format_int (pos n) h =
    let (c, s, p, d) = format_nat_head n in
    let q : scan_number false (c ∷ s) ≡ signed false n = rw p at (scan_number-format_nat false n) in
    rw p (ground (arith, q))
scan_int-format_int (negsuc n) h = ground (arith, scan_number-format_nat true (suc n))
