-- ===== src/Talkback/Tests.antt =====
-- A playback of two frames, of which the second one waits for the tick.
use gocalis.Common.{◌≡◌, refl, none, List, [], ◌∷◌}
use gocalis.Talkback.{new_sender, drained, wait_drained, tick, wrote, begin_playback, enqueue}
use gocalis.Talkback.History.{
  Event, enqueues, ticks, begins, answers, new_system, step, run, paced, pacing,
}
use gocalis.Talkback.Fifo.{IsValid, frames_in_order}
use gocalis.Talkback.Waiting.{drained-written, paced-drained}

abbrev playback : List Event
playback =
    begins
    ∷ enqueues none (1 ∷ [])
    ∷ ticks
    ∷ enqueues none (2 ∷ [])
    ∷ answers none
    ∷ ticks
    ∷ answers none
    ∷ []

is_drained : wait_drained none (run new_system playback).sender ≡ drained
unfolding wait_drained run step enqueue begin_playback new_system new_sender tick wrote
is_drained = refl

frames_in_order_example : IsValid (run new_system playback)
frames_in_order_example = frames_in_order playback

drained-written_example : (run new_system playback).written ≡ (run new_system playback).offered
drained-written_example = drained-written playback none is_drained

paced-drained_example :
    wait_drained none (run (pacing new_sender ((1 ∷ []) ∷ (2 ∷ []) ∷ []) [] []) (paced 2)).sender
    ≡ drained
paced-drained_example = paced-drained new_sender ((1 ∷ []) ∷ (2 ∷ []) ∷ []) [] []
