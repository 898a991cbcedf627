-- ===== src/Recorder.antt =====
-- internal/diagnostics/recording.go: the bounded window of microphone samples. A sample is a value, and
-- a nil recorder, which the methods skip, is left out.
pub mod Newest
mod Tests
use gocalis.Common.{ℕ, ◌+◌, ◌-◌, ltb, Bool, List, [], ◌∷◌, ◌++◌, if◌then◌else◌, length, take, drop}

-- 16000 * 120
abbrev pub recording_limit : ℕ
recording_limit = 1920000

-- copy(mic, mic[excess:]) and the cut behind it.
unfoldable pub shift_down : ℕ → List ℕ → List ℕ
shift_down excess mic =
    take (length mic - excess) (drop excess mic ++ drop (length mic - excess) mic)

unfoldable pub add : ℕ → List ℕ → List ℕ → List ℕ
add limit mic samples =
    let kept =
      if ltb limit (length samples) then drop (length samples - limit) samples else samples in
    let excess = length mic + length kept - limit in
    (if ltb 0 excess then shift_down excess mic else mic) ++ kept

unfoldable pub add_all : ℕ → List ℕ → List (List ℕ) → List ℕ
add_all limit mic [] = mic
add_all limit mic (samples ∷ chunks) = add_all limit (add limit mic samples) chunks

-- Save: what it writes to its two files.
unfoldable pub saved : ℕ → List ℕ → List ℕ → List ℕ × List ℕ
saved limit mic submitted =
    (mic, if ltb limit (length submitted) then take limit submitted else submitted)
