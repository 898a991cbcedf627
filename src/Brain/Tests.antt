-- ===== src/Brain/Tests.antt =====
-- A turn whose playback fails, and the theorem at it.
use gocalis.Common.{◌≡◌, refl, false, none, some, [], ◌∷◌}
use gocalis.Node.{idle, speaking, processing}
use gocalis.Brain.{
  Handle, acquires, releases, sets_state, plays, play_failed, play_samples, with_turn,
  play_samples_to_handle, speak, play_all,
}
use gocalis.Brain.Settled.{untouched, see_all, AllSettled, calls_settle}

abbrev broken : Handle
broken = record {
  acquired = none;
  has_gain = false;
  synthesis = none;
  streamed = none;
  played = some 3;
  context_err = none;
}

failed_playback : play_samples (some broken) (1 ∷ 2 ∷ []) 8000 ≡ (
  acquires
      ∷ sets_state processing
      ∷ sets_state speaking
      ∷ plays false
      ∷ sets_state idle
      ∷ releases
      ∷ [],
  some (play_failed 3),
)
unfolding play_samples with_turn play_samples_to_handle
failed_playback = refl

calls_settle_example :
    (see_all untouched (speak (some broken) false).0 ≡ untouched)
    × (see_all untouched (play_samples (some broken) (1 ∷ 2 ∷ []) 8000).0 ≡ untouched)
    × AllSettled (play_all (broken ∷ []) (1 ∷ 2 ∷ []))
calls_settle_example = calls_settle (some broken) (broken ∷ []) false (1 ∷ 2 ∷ []) 8000
