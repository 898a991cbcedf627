-- ===== src/MuLaw.antt =====
-- internal/audio/mulaw.go: the G.711 mu-law codec. An int16 is its 16-bit pattern, so that negating
-- and adding wrap around as in the source; a byte is a number below 256.
pub mod Bands
pub mod Codec
mod Tests
use gocalis.Common.{
  ℕ, zero, suc, ◌+◌, ◌-◌, ◌*◌, ◌/◌, ◌%◌, ◌^◌, ◌==◌, ltb, leb, Bool, true, false, ◌&&◌, List, [],
  ◌∷◌, if◌then◌else◌,
}

abbrev pub mu_law_bias : ℕ
mu_law_bias = 132

abbrev pub clip : ℕ
clip = 32635

-- Whether an int16 is negative.
abbrev pub is_negative : ℕ → Bool
is_negative x = leb 32768 x

-- `if sample < 0 { sample = -sample }`
pub magnitude : ℕ → ℕ
magnitude x = if is_negative x then (65536 - x) % 65536 else x

-- `if sample > clip { sample = clip }; sample += muLawBias`. A pattern that is still negative, as the
-- magnitude of -32768 is, is not above the clip.
pub biased : ℕ → ℕ
biased s = ((if ltb clip s && ltb s 32768 then clip else s) + mu_law_bias) % 65536

-- The loop over the mask: it stops at a bit that is set, or at exponent 0.
pub exponent_loop : ℕ → ℕ → ℕ → ℕ
exponent_loop zero sample mask = 0
exponent_loop (suc e) sample mask =
    let lower = exponent_loop e sample (mask / 2) in if sample / mask % 2 == 0 then lower else suc e

pub exponent_of : ℕ → ℕ
unfolding exponent_loop
exponent_of sample = exponent_loop 7 sample 0x4000

-- Of the arithmetic shift only bits 3 to 13 of the pattern reach the mantissa.
pub mantissa_of : ℕ → ℕ → ℕ
mantissa_of sample exponent = sample / 2 ^ (exponent + 3) % 16

-- `^byte(sign | (exponent << 4) | mantissa)`
pub pack : Bool → ℕ → ℕ → ℕ
pack negative exponent mantissa = 255 - ((if negative then 128 else 0) + exponent * 16 + mantissa)

pub encode : ℕ → ℕ
unfolding magnitude biased exponent_of mantissa_of pack
encode x =
    let s = biased (magnitude x) in
    pack (is_negative x) (exponent_of s) (mantissa_of s (exponent_of s))

-- `(int32(mantissa)<<3 + muLawBias) << exponent`
pub expand : ℕ → ℕ → ℕ
expand exponent mantissa = (mantissa * 8 + mu_law_bias) * 2 ^ exponent

pub decode : ℕ → ℕ
unfolding expand
decode b =
    let m = 255 - b in
    let sample = expand (m / 16 % 8) (m % 16) in
    if leb 128 m then (65536 + mu_law_bias - sample) % 65536 else sample - mu_law_bias
