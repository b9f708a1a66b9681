-- ===== src/Consumer/Backoff.antt =====
-- shared/consumer/consumer.go: `backoff`, whose shift is on a signed 64-bit integer.
use social_ai_backend.Common.{
  ℕ, zero, suc, ◌+◌, ◌-◌, ◌*◌, ◌%◌, ◌^◌, ◌≤◌, ◌<◌, min, ◌≡◌, refl, subst, ◌∙◌, inl, inr, false,
  ◌||◌, arith, ltb, leb, ◌==◌, if◌then◌else◌, Bool-cases,
}
use native.Mathlib.Nat.{
  pow-suc, mul_assoc, mod-eq_of_lt, add-zero, add-suc, le_of_dvd, dvd-mod_iff, dvd-mul_left,
  mul-le-mul, mul-le-mul_left, mul-le-mul_right, dvd-mul_right, dvd_trans, mod-eq-zero_of_dvd,
}
use native.Mathlib.Decide.{dec_le, dec_lt}
use Prim.Native.Nat.{◌∣◌}
use social_ai_backend.Consumer.Config.{Settings}

-- `base << k` in 64 bits, read as unsigned; from 2^63 on the signed value is negative.
abbrev pub shl64 : ℕ → ℕ → ℕ
shl64 base k = base * 2 ^ k % 2 ^ 64

-- `uint(attempt-1)` is 2^64 - 1 at 0, and the shift by it leaves 0.
unfoldable pub backoff : Settings → ℕ → ℕ
backoff cfg attempt =
    let d = if attempt == 0 then 0 else shl64 cfg.base_backoff (attempt - 1) in
    if (d == 0 || leb (2 ^ 63) d) || ltb cfg.max_backoff d then cfg.max_backoff else d

pow_add : (a b : ℕ) → 2 ^ (a + b) ≡ 2 ^ a * 2 ^ b
pow_add a zero = rw add-zero (omega arith)
pow_add a (suc b) = rw (add-suc, pow-suc, pow-suc, pow_add a b) (mul_assoc (2 ^ a) (2 ^ b) 2)

pow_dvd : (a b : ℕ) → a ≤ b → 2 ^ a ∣ 2 ^ b
pow_dvd a b h =
    subst (λ n. 2 ^ a ∣ 2 ^ n) whole (rw (pow_add a (b - a)) (dvd-mul_right (2 ^ a) (2 ^ (b - a))))
  where
    whole : a + (b - a) ≡ b
    whole = omega arith

-- A product with 2^k keeps that factor when it wraps, so it is 0 or at least 2^k.
shl64_large : (base k : ℕ) → 0 < shl64 base k → 2 ^ k ≤ shl64 base k
shl64_large base k h = elim (dec_le k 64) [
  | yes low ↦ le_of_dvd h ((dvd-mod_iff (2 ^ k) (pow_dvd k 64 low)).1 (dvd-mul_left (2 ^ k) base))
  | no high ↦ absurd (
      omega (
        arith,
        mod-eq-zero_of_dvd (2 ^ 64)
            (dvd_trans (2 ^ 64) (pow_dvd 64 k (omega arith)) (dvd-mul_left (2 ^ k) base)),
      ))
]

-- The facts of an overflowing shift, and what they mean for the delay.
overflow_capped :
    (b p mx w : ℕ)
    → 0 < b
    → b * mx < 2 ^ 63
    → 2 ^ 63 ≤ b * p
    → (0 < w → p ≤ w)
    → (mx ≤ b * p) × ((if (w == 0 || leb (2 ^ 63) w) || ltb mx w then mx else w) ≡ mx)
overflow_capped b p mx w positive small large keeps = (
  omega (arith, mul-le-mul_right {m = 1} {n = b} mx positive),
  elim (Bool-cases (ltb mx w)) [
    | inl over ↦ ground (arith, over)
    | inr under ↦ ground (arith, mul-le-mul_left {m = p} {n = mx} b, keeps)
  ],
)

fits_capped :
    (x mx w : ℕ)
    → 0 < x
    → x < 2 ^ 63
    → w ≡ x
    → (if (w == 0 || leb (2 ^ 63) w) || ltb mx w then mx else w) ≡ min x mx
fits_capped x mx w positive small same = ground arith

pow_pos : (k : ℕ) → 0 < 2 ^ k
pow_pos zero = omega arith
pow_pos (suc k) = rw (pow-suc) (omega (arith, pow_pos k))

-- The shift, capped.
capped_doubling :
    (cfg : Settings) (attempt : ℕ)
    → 0 < cfg.base_backoff
    → cfg.base_backoff * cfg.max_backoff < 2 ^ 63
    → (let d = shl64 cfg.base_backoff (attempt - 1) in
        if (d == 0 || leb (2 ^ 63) d) || ltb cfg.max_backoff d then cfg.max_backoff else d)
      ≡ min (cfg.base_backoff * 2 ^ (attempt - 1)) cfg.max_backoff
capped_doubling cfg attempt positive small =
    elim (dec_lt (cfg.base_backoff * 2 ^ (attempt - 1)) (2 ^ 63)) [
      | yes fits ↦
          fits_capped (cfg.base_backoff * 2 ^ (attempt - 1)) cfg.max_backoff
            (shl64 cfg.base_backoff (attempt - 1))
            (mul-le-mul {n₁ = 1} {m₁ = 1} positive (pow_pos (attempt - 1))) fits
            (mod-eq_of_lt {n = cfg.base_backoff * 2 ^ (attempt - 1)} {m = 2 ^ 64} (omega arith))
      | no wraps ↦
          let (capped, result) =
            overflow_capped cfg.base_backoff (2 ^ (attempt - 1)) cfg.max_backoff
              (shl64 cfg.base_backoff (attempt - 1)) positive small (omega arith)
              (shl64_large cfg.base_backoff (attempt - 1)) in
          result ∙ omega (arith, capped)
    ]

-- After attempt 0, which `process` does not count, the delay is the cap. After any other it is the base
-- doubled for each attempt before this one and capped, as long as the base times the cap fits 63 bits: an overflowing shift
-- is never mistaken for a short delay.
pub backoff_lem :
    (cfg : Settings) (attempt : ℕ)
    → 0 < cfg.base_backoff
    → cfg.base_backoff * cfg.max_backoff < 2 ^ 63
    → backoff cfg attempt ≡ (
        if attempt == 0
        then cfg.max_backoff
        else min (cfg.base_backoff * 2 ^ (attempt - 1)) cfg.max_backoff)
unfolding backoff
backoff_lem cfg zero positive small = refl
backoff_lem cfg (suc n) positive small =
    rw (backoff, not_first) (capped_doubling cfg (suc n) positive small)
  where
    not_first : (suc n == 0) ≡ false
    not_first = ground arith
