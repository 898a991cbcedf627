-- ===== src/Playback/Tests.antt =====
-- Playbacks of three chunks, with an encoder that numbers its frames.
use gocalis.Common.{ℕ, ◌+◌, ◌-◌, ◌*◌, ◌/◌, ◌≡◌, List, [], ◌∷◌, ◌++◌, arith, map, concat}
use gocalis.Playback.{Line, completed}
use gocalis.Playback.Framing.{sound, open_link, IsPlayed}
use gocalis.Playback.Whole.{readings_of, all_spoken}
use gocalis.Playback.Client.{pcmu, play_session, play_session-IsPlayed, as_is}
use gocalis.Playback.Talkback.{Talk, play_talkback}
use gocalis.Playback.Resampled.{play_talkback-IsPlayed}
use gocalis.Resample.Whole.{whole_clip}

abbrev numbering : ℕ → List ℕ → ℕ × List ℕ
numbering n frame = (n + 1, n ∷ [])

abbrev rising : ℕ → ℕ → ℕ → ℕ → ℕ
rising x y n d = x + (y - x) * n / d

abbrev keep : List ℕ → List ℕ
keep pcm = pcm

abbrev chunks : List (List ℕ)
chunks = (10 ∷ 20 ∷ []) ∷ [] ∷ (30 ∷ 50 ∷ []) ∷ []

play_session-IsPlayed_example :
    (l : Line ℕ) × (play_session
        (sound numbering)
        open_link
        keep
        keep
        pcmu
        7
        (readings_of chunks (60 ∷ []))
      ≡ (l, completed))
    × IsPlayed {Enc = ℕ} as_is 7 80 255 (concat (map keep (all_spoken chunks (60 ∷ [])))) l.sent
play_session-IsPlayed_example = play_session-IsPlayed numbering keep keep pcmu 7 chunks (60 ∷ [])

play_talkback-IsPlayed_example :
    (t : Talk ℕ) × (play_talkback rising 8000 (sound numbering) open_link 7 (readings_of chunks [])
      ≡ (t, completed))
    × IsPlayed {Enc = ℕ} numbering 7 480 0
        (whole_clip rising 8000 48000 (concat chunks ++ []))
        t.line.sent
play_talkback-IsPlayed_example =
    play_talkback-IsPlayed rising 8000 (omega arith) numbering 7 chunks []
