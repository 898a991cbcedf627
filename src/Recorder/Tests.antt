-- ===== src/Recorder/Tests.antt =====
-- A window of four samples.
use gocalis.Common.{ℕ, ◌≡◌, refl, List, [], ◌∷◌, concat}
use gocalis.Recorder.{add, add_all, shift_down}
use gocalis.Recorder.Newest.{newest, add_all-newest}

abbrev chunks : List (List ℕ)
chunks = (1 ∷ 2 ∷ 3 ∷ []) ∷ (4 ∷ 5 ∷ []) ∷ []

kept_four : add_all 4 [] chunks ≡ 2 ∷ 3 ∷ 4 ∷ 5 ∷ []
unfolding add_all add shift_down
kept_four = refl

add_all-newest_example : add_all 4 [] chunks ≡ newest 4 (concat chunks)
add_all-newest_example = add_all-newest 4 chunks
