-- ===== src/MuLaw/Bands.antt =====
-- The exponent is that of the band of the biased magnitude, and its step is a 32nd of it at most.
use gocalis.Common.{ℕ, zero, suc, ◌+◌, ◌-◌, ◌*◌, ◌^◌, ◌≤◌, ◌<◌, arith}
use gocalis.MuLaw.{exponent_of, mantissa_of, expand}

-- The value that a band's byte stands for, with the bias.
pub record InBand (s e : ℕ) : Type 0 where
  pub small : e ≤ 7
  pub lower : 2 ^ (e + 7) ≤ s
  pub upper : s < 2 ^ (e + 8)

pub exponent_of-InBand : (s : ℕ) → 128 ≤ s → s < 32768 → InBand s (exponent_of s)
unfolding exponent_of
exponent_of-InBand s h k = ground arith

-- The middle of the step that holds `s`: at most half a step away, a 32nd of `s`.
pub band_error :
    (e s : ℕ)
    → InBand s e
    → (32 * (expand e (mantissa_of s e) - s) ≤ s) × (32 * (s - expand e (mantissa_of s e)) ≤ s)
unfolding expand mantissa_of
band_error zero s b = omega (arith, b.lower, b.upper)
band_error (suc zero) s b = omega (arith, b.lower, b.upper)
band_error (suc (suc zero)) s b = omega (arith, b.lower, b.upper)
band_error (suc (suc (suc zero))) s b = omega (arith, b.lower, b.upper)
band_error (suc (suc (suc (suc zero)))) s b = omega (arith, b.lower, b.upper)
band_error (suc (suc (suc (suc (suc zero))))) s b = omega (arith, b.lower, b.upper)
band_error (suc (suc (suc (suc (suc (suc zero)))))) s b = omega (arith, b.lower, b.upper)
band_error (suc (suc (suc (suc (suc (suc (suc zero))))))) s b = omega (arith, b.lower, b.upper)
band_error (suc (suc (suc (suc (suc (suc (suc (suc e)))))))) s b = absurd (omega (arith, b.small))

pub expand_bounds : (e m : ℕ) → e ≤ 7 → m < 16 → (132 ≤ expand e m) × (expand e m ≤ 32256)
unfolding expand
expand_bounds zero m h k = (omega arith, omega arith)
expand_bounds (suc zero) m h k = (omega arith, omega arith)
expand_bounds (suc (suc zero)) m h k = (omega arith, omega arith)
expand_bounds (suc (suc (suc zero))) m h k = (omega arith, omega arith)
expand_bounds (suc (suc (suc (suc zero)))) m h k = (omega arith, omega arith)
expand_bounds (suc (suc (suc (suc (suc zero))))) m h k = (omega arith, omega arith)
expand_bounds (suc (suc (suc (suc (suc (suc zero)))))) m h k = (omega arith, omega arith)
expand_bounds (suc (suc (suc (suc (suc (suc (suc zero))))))) m h k = (omega arith, omega arith)
expand_bounds (suc (suc (suc (suc (suc (suc (suc (suc e)))))))) m h k = absurd (omega arith)
