-- ===== src/Resample/Position.antt =====
-- Where the output samples lie in the input.
use native.Mathlib.Nat.{le-div_iff_mul-le, div-lt_iff_lt-mul, div-mul-le_self}
use gocalis.Common.{ℕ, suc, ◌*◌, ◌/◌, ◌≤◌, ◌<◌, arith}

pub div_mono : (a b d : ℕ) → 0 < d → a ≤ b → a / d ≤ b / d
div_mono a b d h le = (le-div_iff_mul-le h).1 (omega (arith, div-mul-le_self a d))

-- A sample in front of the limit lies in the input.
pub position-lt-total :
    (k total src dst : ℕ) → 0 < src → 0 < dst → k < total * dst / src → k * src / dst < total
position-lt-total k total src dst hs hd h =
    let reach : suc k * src ≤ total * dst = (le-div_iff_mul-le hs).0 (omega arith) in
    (div-lt_iff_lt-mul hd).1 (omega (arith, reach))
