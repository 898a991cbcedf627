-- ===== src/Playback/Talkback.antt =====
-- internal/webrtc/talkback.go: pushPCM and flushPCM, which resample to 48 kHz with a phase that is kept
-- across chunks, cut frames of 480 samples, encode and enqueue them. What each enqueue gives is a
-- parameter; the queue itself is modelled in Talkback.
use gocalis.Common.{ℕ, ◌==◌, Option, none, some, List, [], ◌++◌, if◌then◌else◌, length, take, drop}
use gocalis.AudioSource.{Reading}
use gocalis.Resample.{PcmResampler, new_resampler, stream, append_to, and_then}
use gocalis.Resample as Resample
use gocalis.Playback.{
  PlayError, PlayResult, invalid_rate, index_panic, Line, padded, send_coded, push_frames, play,
}

pub record Talk (Enc : Type 0) : Type 0 where
  pub resampler : Option PcmResampler
  pub line : Line Enc

module _ (lerp : ℕ → ℕ → ℕ → ℕ → ℕ) (rate : ℕ) where
  abbrev pub current : Option PcmResampler → PcmResampler
  current none = new_resampler rate 48000
  current (some r) = r

  module _ {Enc : Type 0} (encode : Enc → List ℕ → Enc × Option (List ℕ))
      (link : ℕ → Option PlayError) where
    -- A frame leaves the buffer in front of the enqueue.
    unfoldable pub step : Line Enc → Line Enc × Option PlayError
    step l =
        let r = encode l.enc (take 480 l.rest) in
        send_coded link (record l { enc = r.0; rest = drop 480 l.rest }, r.1)

    abbrev pub with_line :
        Option PcmResampler → Line Enc × Option PlayError → Talk Enc × Option PlayError
    with_line resampler (l, e) = (record { resampler = resampler; line = l }, e)

    abbrev pub after_resample :
        Talk Enc → Option (PcmResampler × List ℕ) → Talk Enc × Option PlayError
    after_resample t none = (t, some index_panic)
    after_resample t (some (r, out)) = with_line (some r) (push_frames 480 step t.line out)

    unfoldable pub push_pcm : Talk Enc → List ℕ → Talk Enc × Option PlayError
    push_pcm t pcm =
        if rate == 0
        then (t, some invalid_rate)
        else after_resample t (Resample.push lerp (current t.resampler) pcm)

    -- The last frame, filled up with zeros.
    unfoldable pub send_tail : Line Enc → Line Enc × Option PlayError
    send_tail l =
        if length l.rest == 0
        then (l, none)
        else (let r = encode l.enc (padded 480 0 l.rest) in
            send_coded link (record l { enc = r.0; rest = [] }, r.1))

    abbrev pub after_loop : Line Enc × Option PlayError → Line Enc × Option PlayError
    after_loop (l, some e) = (l, some e)
    after_loop (l, none) = send_tail l

    unfoldable pub flush_line : Line Enc → List ℕ → Line Enc × Option PlayError
    flush_line l out =
        if length (l.rest ++ out) == 0 then (l, none) else after_loop (push_frames 480 step l out)

    abbrev pub after_flushed :
        Talk Enc → Option (PcmResampler × List ℕ) → Talk Enc × Option PlayError
    after_flushed t none = (t, some index_panic)
    after_flushed t (some (r, out)) = with_line none (flush_line t.line out)

    unfoldable pub flush_pcm : Talk Enc → Talk Enc × Option PlayError
    flush_pcm t = elim t.resampler [
      | none ↦ with_line none (flush_line t.line [])
      | some r ↦ after_flushed t (Resample.flush lerp r)
    ]

    -- The part of PlayStream that plays over the talkback.
    unfoldable pub play_talkback : Enc → List Reading → Talk Enc × PlayResult
    play_talkback enc readings =
        play push_pcm flush_pcm
          (record { resampler = none; line = record { enc = enc; rest = []; sent = [] } }) readings
