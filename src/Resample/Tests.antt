-- ===== src/Resample/Tests.antt =====
-- A clip in three chunks, one of them empty, with an interpolation in whole numbers.
use gocalis.Common.{concat, ℕ, ◌+◌, ◌*◌, ◌-◌, ◌/◌, ◌≡◌, refl, some, List, [], ◌∷◌, arith}
use gocalis.Resample.{PcmResampler, new_resampler, stream}
use gocalis.Resample.Whole.{whole_clip, points, point}
use gocalis.Resample.Stream.{stream-whole_clip}

abbrev rising : ℕ → ℕ → ℕ → ℕ → ℕ
rising x y n d = x + (y - x) * n / d

abbrev chunks : List (List ℕ)
chunks = (10 ∷ 20 ∷ []) ∷ [] ∷ (30 ∷ 50 ∷ []) ∷ []

-- From 8 kHz to 16 kHz each second sample lies between two.
doubled : whole_clip rising 8000 16000 (concat chunks) ≡ 10 ∷ 15 ∷ 20 ∷ 25 ∷ 30 ∷ 40 ∷ 50 ∷ 50 ∷ []
unfolding whole_clip points point
doubled = refl

stream-whole_clip_example :
    (r : PcmResampler) × (stream rising (new_resampler 8000 16000) chunks
      ≡ some (r, whole_clip rising 8000 16000 (concat chunks)))
stream-whole_clip_example = stream-whole_clip rising 8000 16000 (omega arith) chunks
