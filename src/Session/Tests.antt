-- ===== src/Session/Tests.antt =====
-- Runs of a session, and its theorems at concrete inputs.
use gocalis.Common.{ℕ, ◌≡◌, refl, some, true, false, List, [], ◌∷◌, ◌++◌, take, if◌then◌else◌}
use gocalis.Session.{
  Session, fed, new, listening, arm_barge_in, disarm_barge_in, start_capture, stop_capture,
  capture_limit, pre_roll_limit,
}
use gocalis.Session.Calls.{calls, new-IsValid}
use gocalis.Session.Barge.{Feed, as_calls, some_speech, barge_signals_once}
use gocalis.Session.Capture.{silent, samples_of, keep_last, capture_exact}

abbrev quiet : List (List ℕ × ℕ)
quiet = (1 ∷ 2 ∷ [], 10) ∷ (3 ∷ [], 20) ∷ []

abbrev talk : List (Feed ℕ)
talk = ([], true, 5) ∷ (1 ∷ [], false, 10) ∷ (2 ∷ 3 ∷ [], true, 20) ∷ (4 ∷ [], true, 30) ∷ []

barge_signals_once_example :
    (t : Session ℕ) × (calls (arm_barge_in (new 1 2)) (as_calls talk) ≡ fed t)
    × (t.barge_ch ≡ some (if some_speech talk then 1 else 0))
    × ((disarm_barge_in t).1 ≡ some_speech talk)
    × (some_speech talk ≡ true → (t.state ≡ listening) × (t.capture_active ≡ true))
barge_signals_once_example = barge_signals_once (new 1 2) talk (new-IsValid 1 2)

capture_exact_example :
    (t : Session ℕ) × (calls
        (start_capture (new 1 2))
        (as_calls (silent quiet ++ (9 ∷ [], true, 30) ∷ talk))
      ≡ fed t)
    × ((stop_capture t).1
        ≡ take capture_limit
            ((keep_last pre_roll_limit (samples_of (silent quiet)) ++ 9 ∷ []) ++ samples_of talk))
unfolding new
capture_exact_example = capture_exact (new 1 2) quiet 9 [] 30 talk (new-IsValid 1 2) refl
