-- ===== src/Supervisor/Health/Backoff.antt =====
-- internal/supervisor/health.go: the delay before a restart.
use orchestration.Prelude.{
  ℕ, zero, suc, ◌*◌, ◌^◌, ◌≤◌, ◌<◌, ◌≡◌, ap, ◌∙◌, ltb, arith, Bool-cases, inl, inr,
}
use Prim.Native.Nat.{min}
use native.Mathlib.Nat.{pow-suc, one-le-pow, le-mul_of_pos_right}
use orchestration.Prelude.Int.{pos, ◌*ℤ◌, mul64, wrap_lem}
use orchestration.Supervisor.Health.{HealthConfig, double_delay, backoff_for}

twice : (d : ℕ) → pos d *ℤ pos 2 ≡ pos (d * 2)
unfolding ◌*ℤ◌
twice d = ground arith

doubled : (d : ℕ) → d * 2 < 2 ^ 63 → mul64 (pos d) (pos 2) ≡ pos (d * 2)
doubled d h = rw (twice d) (wrap_lem (pos (d * 2)) (omega arith, omega arith))

-- Doubling `n` times and taking the cap at the end gives what the loop gives.
double_delay_lem :
    (n d top : ℕ)
    → 1 ≤ d
    → d ≤ top
    → top < 2 ^ 62
    → double_delay n (pos d) (pos top) ≡ pos (min (d * 2 ^ n) top)
unfolding double_delay
double_delay_lem zero d top p h k = ap pos (omega arith)
double_delay_lem (suc n) d top p h k =
    rw (doubled d (omega arith)) (elim (Bool-cases (ltb (d * 2) top)) [
      | inl e ↦ ground (
        arith,
        double_delay_lem n (d * 2) top (omega arith) (ground arith) k ∙ ap pos (below n d),
      )
      | inr e ↦ ground (arith, ap pos (above n d top (ground arith)))
    ])
  where
    same : (n d : ℕ) → d * 2 * 2 ^ n ≡ d * (2 ^ n * 2)
    same n d = omega arith

    positive : (n : ℕ) → 0 < 2 ^ n
    positive n = one-le-pow n 2 (omega arith)

    below : (n d : ℕ) → min (d * 2 * 2 ^ n) top ≡ min (d * 2 ^ suc n) top
    below n d = rw (pow-suc 2 n) (ap (λ (x : ℕ). min x top) (same n d))

    above : (n d top : ℕ) → top ≤ d * 2 → top ≡ min (d * 2 ^ suc n) top
    above n d top h =
        rw (pow-suc 2 n) (omega (arith, same n d, le-mul_of_pos_right (d * 2) (positive n)))

-- With a positive base that is no greater than the cap, and a cap below 2^62 nanoseconds, about 146
-- years, the delay before restart `n` is the base doubled `n` times, or the cap if that is less.
pub backoff_for_lem :
    (cfg : HealthConfig) (n base top : ℕ)
    → cfg.backoff_base ≡ pos base
    → cfg.backoff_max ≡ pos top
    → 1 ≤ base
    → base ≤ top
    → top < 2 ^ 62
    → backoff_for (pos n) cfg ≡ pos (min (base * 2 ^ n) top)
unfolding backoff_for
backoff_for_lem cfg n base top b m p h k =
    ap (λ x. double_delay n x cfg.backoff_max) b
    ∙ ap (λ x. double_delay n (pos base) x) m
    ∙ double_delay_lem n base top p h k
