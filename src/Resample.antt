-- ===== src/Resample.antt =====
-- internal/audio/stream_resample.go: the resampler that keeps its phase across chunks. A sample is its
-- 16-bit pattern and a rate that is not positive is 0; the counters of int64 do not overflow. The
-- interpolation between two samples is floating point, and a parameter: `lerp x y n d` is
-- `int16(x + (y - x) * (n / d))`.
pub mod Position
pub mod Whole
pub mod Stream
mod Tests
use gocalis.Common.{
  ℕ, zero, suc, ◌+◌, ◌-◌, ◌*◌, ◌/◌, ◌%◌, ◌==◌, ltb, leb, Bool, true, false, not, ◌&&◌, ◌||◌, Option,
  none, some, List, [], ◌∷◌, ◌++◌, if◌then◌else◌, length, drop, min, get_elem?,
}

pub record PcmResampler : Type 0 where
  pub src : ℕ
  pub dst : ℕ
  pub input : List ℕ
  pub base : ℕ
  pub total : ℕ
  pub output : ℕ

unfoldable pub new_resampler : ℕ → ℕ → PcmResampler
new_resampler src dst = record { src = src; dst = dst; input = []; base = 0; total = 0; output = 0 }

-- `r.output*src / dst`, the index of an output sample in the whole input.
unfoldable pub position : PcmResampler → ℕ → ℕ
position r k = k * r.src / r.dst

unfoldable pub limit : PcmResampler → ℕ
limit r = r.total * r.dst / r.src

-- What the loop has appended, and the output count behind it; `none` is an index out of range.
abbrev pub Emitted : Type 0
Emitted = Option (List ℕ × ℕ)

abbrev pub prepend : ℕ → Emitted → Emitted
prepend v none = none
prepend v (some (out, output)) = some (v ∷ out, output)

-- The tail of emit: the input in front of the next position is dropped.
unfoldable pub trim : PcmResampler → ℕ → PcmResampler
trim r output =
    let dropped = min (position r output - r.base) (length r.input) in
    record r { output = output; input = drop dropped r.input; base = r.base + dropped }

abbrev pub kept_of : PcmResampler → Emitted → Option (PcmResampler × List ℕ)
kept_of r none = none
kept_of r (some (out, output)) = some (trim r output, out)

abbrev pub append_to : List ℕ → Option (PcmResampler × List ℕ) → Option (PcmResampler × List ℕ)
append_to out none = none
append_to out (some (r, more)) = some (r, out ++ more)

abbrev pub and_then :
    Option (PcmResampler × List ℕ)
    → (PcmResampler → Option (PcmResampler × List ℕ))
    → Option (PcmResampler × List ℕ)
and_then none k = none
and_then (some (r, out)) k = append_to out (k r)

module _ (lerp : ℕ → ℕ → ℕ → ℕ → ℕ) where
  -- Between a sample and the next one, if there is one.
  abbrev pub between : Option ℕ → Option ℕ → ℕ → ℕ → Option ℕ
  between none y n d = none
  between (some x) none n d = some x
  between (some x) (some y) n d = some (lerp x y n d)

  -- The value of an output sample.
  unfoldable pub value_at : PcmResampler → ℕ → Option ℕ
  unfolding position
  value_at r output =
      let i = position r output - r.base in
      between (get_elem? r.input i) (get_elem? r.input (i + 1)) (output * r.src % r.dst) r.dst

  -- The loop, on fuel.
  unfoldable pub emit_loop : ℕ → Bool → PcmResampler → ℕ → Emitted
  emit_loop zero final r output = some ([], output)
  emit_loop (suc fuel) final r output =
      let rest = emit_loop fuel final r (output + 1) in
      if ltb output (limit r)
      then (if not final && leb r.total (position r output + 1)
          then some ([], output)
          else elim (value_at r output) [ none ↦ none | some v ↦ prepend v rest ])
      else some ([], output)

  unfoldable pub emit : Bool → PcmResampler → Option (PcmResampler × List ℕ)
  emit final r =
      if r.src == 0 || r.dst == 0
      then some (r, [])
      else kept_of r (emit_loop (limit r - r.output) final r r.output)

  unfoldable pub push : PcmResampler → List ℕ → Option (PcmResampler × List ℕ)
  push r samples =
      emit false (record r { input = r.input ++ samples; total = r.total + length samples })

  unfoldable pub flush : PcmResampler → Option (PcmResampler × List ℕ)
  flush r = emit true r

  -- A clip in chunks, and the flush behind it.
  unfoldable pub stream : PcmResampler → List (List ℕ) → Option (PcmResampler × List ℕ)
  stream r [] = flush r
  stream r (chunk ∷ chunks) = and_then (push r chunk) (λ r'. stream r' chunks)
