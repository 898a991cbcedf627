-- ===== src/Capture/Tests.antt =====
-- Two packets, and a reset between their arrivals.
use gocalis.Common.{◌≡◌, refl, true, List, [], ◌∷◌, map}
use gocalis.Capture.{
  Delivery, new_receiver, Event, arrives, resets, looks, receives, emits, run, step, ingest,
  reset_capture, look, receive, deliver_epoch,
}
use gocalis.Capture.Gaps.{expected, missing, concealed}
use gocalis.Capture.Epochs.{IsFenced, receiver-IsFenced}

abbrev history : List Event
history =
    arrives 1 0
    ∷ receives
    ∷ resets
    ∷ emits true 0
    ∷ looks
    ∷ arrives 2 0
    ∷ receives
    ∷ emits true 0
    ∷ []

second_only : map (λ (d : Delivery). d.from.packet) (run new_receiver history).delivered ≡ 2 ∷ []
unfolding run step ingest reset_capture look receive deliver_epoch new_receiver
second_only = refl

receiver-IsFenced_example : IsFenced (run new_receiver history)
receiver-IsFenced_example = receiver-IsFenced history

-- The expected timestamp wraps around to 224, where nothing is missing.
wrapped : concealed true true (missing 224 (expected 4294966560 320 48000) 48000) ≡ 0
unfolding concealed missing expected
wrapped = refl
