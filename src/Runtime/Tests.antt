-- ===== src/Runtime/Tests.antt =====
-- A node that hears its wake word, answers, and hears audio again.
use gocalis.Common.{◌≡◌, refl, true, false, none, List, [], ◌∷◌}
use gocalis.Node.{idle, speaking}
use gocalis.Ask.{Result, success}
use gocalis.Runtime.{Heard, new_gate, hear_all, on_audio, resets_wake, hears_wake}
use gocalis.Runtime.Segments.{wake_part, wake_audio, hear_all-segments}
use gocalis.Runtime.Wake.{WakeConfig, Event, keyword_found, turn_ends, run, no_wake}
use gocalis.Runtime.Turns.{IsSingle, turns-IsSingle}

-- Idle, speaking, and idle again.
abbrev calls : List Heard
calls =
    record { samples = 1 ∷ []; state = idle; wake_pending = false; is_speech = false }
    ∷ record { samples = 2 ∷ []; state = speaking; wake_pending = false; is_speech = true }
    ∷ record { samples = 3 ∷ []; state = idle; wake_pending = false; is_speech = false }
    ∷ []

-- With echo cancellation the detector is reset behind the speech of the node.
reset_again :
    wake_part (hear_all false new_gate calls)
    ≡ resets_wake ∷ hears_wake (1 ∷ []) ∷ resets_wake ∷ hears_wake (3 ∷ []) ∷ []
unfolding hear_all on_audio
reset_again = refl

-- In half duplex it is not.
not_reset_again :
    wake_part (hear_all true new_gate calls)
    ≡ resets_wake ∷ hears_wake (1 ∷ []) ∷ hears_wake (3 ∷ []) ∷ []
unfolding hear_all on_audio
not_reset_again = refl

hear_all-segments_example :
    (wake_audio (hear_all true new_gate calls) ≡ (1 ∷ []) ∷ (3 ∷ []) ∷ [])
    × (wake_part (hear_all false new_gate calls)
        ≡ resets_wake ∷ hears_wake (1 ∷ []) ∷ resets_wake ∷ hears_wake (3 ∷ []) ∷ [])
hear_all-segments_example = hear_all-segments true new_gate calls

abbrev cfg : WakeConfig
cfg = record { wake_responses = (4 ∷ []) ∷ []; auto_ask = false; auto_ask_record = false }

abbrev silent : Result
silent = record {
  context_id = [];
  node_id = [];
  status = success;
  transcription = [];
  speaker = [];
  error_message = none;
  audio = [];
  sample_rate = 0;
}

abbrev events : List Event
events =
    keyword_found true idle (5 ∷ []) silent
    ∷ keyword_found true idle (5 ∷ []) silent
    ∷ turn_ends
    ∷ []

turns-IsSingle_example : IsSingle (run cfg no_wake events)
turns-IsSingle_example = turns-IsSingle cfg events
