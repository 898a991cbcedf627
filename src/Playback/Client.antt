-- ===== src/Playback/Client.antt =====
-- internal/webrtc/client.go: playSession, which sends over the receiving connection as PCMU or as Opus.
-- A session uses one of its two buffers, the line's leftover, as its codec says.
use gocalis.Common.{
  ℕ, ◌==◌, ◌<◌, ◌≡◌, refl, ap, ◌∙◌, sym, subst, arith, Option, none, some, List, [], ◌∷◌, ◌++◌,
  if◌then◌else◌, length, take, drop, map, concat, append-nil, append_assoc, Bool-cases, inl, inr,
  empty_list,
}
use gocalis.AudioSource.{Reading}
use gocalis.Playback.{
  PlayError, PlayResult, completed, Line, padded, send, send_coded, push_frames, play,
}
use gocalis.Playback.Framing.{
  sound, open_link, IsFramed, IsPlayed, with_frame, Works, push-Framed, padded-IsPlayed,
  empty-IsPlayed,
}
use gocalis.Playback.Whole.{play_works, readings_of, all_spoken}

pub data Codec : Type 0 where
  pcmu opus : Codec

abbrev pub pcmu_frame_bytes : ℕ
pcmu_frame_bytes = 80

abbrev pub opus_frame_size : ℕ
opus_frame_size = 480

module _ {Enc : Type 0} (encode : Enc → List ℕ → Enc × Option (List ℕ))
    (link : ℕ → Option PlayError) (mu_law resample : List ℕ → List ℕ) where
  unfoldable pub encode_opus : Line Enc → List ℕ → Line Enc × Option (List ℕ)
  encode_opus l frame = let r = encode l.enc frame in (record l { enc = r.0 }, r.1)

  -- The frame leaves the buffer behind the send.
  abbrev pub cut : ℕ → Line Enc × Option PlayError → Line Enc × Option PlayError
  cut size (l, some e) = (l, some e)
  cut size (l, none) = (record l { rest = drop size l.rest }, none)

  unfoldable pub pcmu_step : Line Enc → Line Enc × Option PlayError
  pcmu_step l = cut pcmu_frame_bytes (send link l (take pcmu_frame_bytes l.rest))

  unfoldable pub opus_step : Line Enc → Line Enc × Option PlayError
  opus_step l = cut opus_frame_size (send_coded link (encode_opus l (take opus_frame_size l.rest)))

  unfoldable pub push : Codec → Line Enc → List ℕ → Line Enc × Option PlayError
  push pcmu l pcm = push_frames pcmu_frame_bytes pcmu_step l (mu_law pcm)
  push opus l pcm = push_frames opus_frame_size opus_step l (resample pcm)

  unfoldable pub flush : Codec → Line Enc → Line Enc × Option PlayError
  flush pcmu l =
      if length l.rest == 0
      then (l, none)
      else send link (record l { rest = [] }) (padded pcmu_frame_bytes 255 l.rest)
  flush opus l =
      if length l.rest == 0
      then (l, none)
      else send_coded link (encode_opus (record l { rest = [] }) (padded opus_frame_size 0 l.rest))

  unfoldable pub play_session : Codec → Enc → List Reading → Line Enc × PlayResult
  play_session codec enc readings =
      play (push codec) (flush codec) (record { enc = enc; rest = []; sent = [] }) readings

-- PCMU frames are sent as they are.
abbrev pub as_is : {Enc : Type 0} → Enc → List ℕ → Enc × List ℕ
as_is e frame = (e, frame)

module _ {Enc : Type 0} (pack : Enc → List ℕ → Enc × List ℕ)
    (mu_law resample : List ℕ → List ℕ) where
  abbrev pub frame_size : Codec → ℕ
  frame_size pcmu = pcmu_frame_bytes
  frame_size opus = opus_frame_size

  abbrev pub silence_of : Codec → ℕ
  silence_of pcmu = 255
  silence_of opus = 0

  abbrev pub pack_of : Codec → Enc → List ℕ → Enc × List ℕ
  pack_of pcmu = as_is
  pack_of opus = pack

  abbrev pub convert_of : Codec → List ℕ → List ℕ
  convert_of pcmu = mu_law
  convert_of opus = resample

  pcmu-Works :
      (start : Enc) → Works as_is start 80 (pcmu_step (sound pack) open_link mu_law resample)
  unfolding pcmu_step send
  pcmu-Works start l = refl

  opus-Works :
      (start : Enc) → Works pack start 480 (opus_step (sound pack) open_link mu_law resample)
  unfolding opus_step send encode_opus
  opus-Works start l = refl

  fed_of : Codec → List (List ℕ) → List ℕ
  fed_of codec past = concat (map (convert_of codec) past)

  fed_of-snoc :
      (codec : Codec) (past : List (List ℕ)) (pcm : List ℕ)
      → fed_of codec past ++ convert_of codec pcm ≡ fed_of codec (past ++ pcm ∷ [])
  unfolding fed_of
  fed_of-snoc codec [] pcm = sym (append-nil (convert_of codec pcm))
  fed_of-snoc codec (xs ∷ past) pcm =
      append_assoc (convert_of codec xs) (fed_of codec past) (convert_of codec pcm)
      ∙ ap (λ l. convert_of codec xs ++ l) (fed_of-snoc codec past pcm)

  pos : (codec : Codec) → 0 < frame_size codec
  pos pcmu = omega arith
  pos opus = omega arith

  -- Behind the pushed chunks: whole frames are sent, and less than a frame is left.
  abbrev Pushed : Codec → Enc → List (List ℕ) → Line Enc → Type 0
  Pushed codec start past l =
      IsFramed (pack_of codec) start (frame_size codec) (fed_of codec past) l
      × (length l.rest < frame_size codec)

  abbrev Done : Codec → Enc → List (List ℕ) → Line Enc → Type 0
  Done codec start past l =
      IsPlayed (pack_of codec) start (frame_size codec) (silence_of codec) (fed_of codec past)
        l.sent

  push_works :
      (codec : Codec) (start : Enc) (past : List (List ℕ)) (l : Line Enc) (pcm : List ℕ)
      → Pushed codec start past l
      → (l' : Line Enc) × (push (sound pack) open_link mu_law resample codec l pcm ≡ (l', none))
        × Pushed codec start (past ++ pcm ∷ []) l'
  unfolding push
  push_works pcmu start past l pcm v =
      let (l', e, framed, short) =
        push-Framed as_is start 80 (pcmu_step (sound pack) open_link mu_law resample)
          (pcmu-Works start) (pos pcmu) (fed_of pcmu past) l (mu_law pcm) v.0 in
      (
        l',
        e,
        (subst (λ fed. IsFramed as_is start 80 fed l') (fed_of-snoc pcmu past pcm) framed, short),
      )
  push_works opus start past l pcm v =
      let (l', e, framed, short) =
        push-Framed pack start 480 (opus_step (sound pack) open_link mu_law resample)
          (opus-Works start) (pos opus) (fed_of opus past) l (resample pcm) v.0 in
      (
        l',
        e,
        (subst (λ fed. IsFramed pack start 480 fed l') (fed_of-snoc opus past pcm) framed, short),
      )

  flush_works :
      (codec : Codec) (start : Enc) (past : List (List ℕ)) (l : Line Enc)
      → Pushed codec start past l
      → (l' : Line Enc) × (flush (sound pack) open_link mu_law resample codec l ≡ (l', none))
        × Done codec start past l'
  unfolding flush send encode_opus
  flush_works pcmu start past l v = elim (Bool-cases (length l.rest == 0)) [
    | inl none_left ↦ (
      l,
      rw none_left refl,
      empty-IsPlayed as_is start 80 _ _ l v.0 (empty_list l.rest (ground (arith, none_left)))
          (pos pcmu),
    )
    | inr some_left ↦ (
      with_frame as_is start 80 l (padded 80 (silence_of pcmu) l.rest) [],
      rw some_left refl,
      padded-IsPlayed as_is start 80 _ _ l v.0 (ground (arith, some_left)) v.1,
    )
  ]
  flush_works opus start past l v = elim (Bool-cases (length l.rest == 0)) [
    | inl none_left ↦ (
      l,
      rw none_left refl,
      empty-IsPlayed pack start 480 _ _ l v.0 (empty_list l.rest (ground (arith, none_left)))
          (pos opus),
    )
    | inr some_left ↦ (
      with_frame pack start 480 l (padded 480 (silence_of opus) l.rest) [],
      rw some_left refl,
      padded-IsPlayed pack start 480 _ _ l v.0 (ground (arith, some_left)) v.1,
    )
  ]

  -- Where no call fails, a playback over the receiving connection completes, and what it sent are the
  -- converted chunks of the source, joined, cut into frames of 80 bytes (PCMU) or 480 samples (Opus),
  -- encoded in order by one encoder, with the last frame alone filled up with silence.
  pub play_session-IsPlayed :
      (codec : Codec) (start : Enc) (chunks : List (List ℕ)) (last : List ℕ)
      → (l : Line Enc) × (play_session
            (sound pack)
            open_link
            mu_law
            resample
            codec
            start
            (readings_of chunks last)
          ≡ (l, completed))
        × IsPlayed
            (pack_of codec)
            start
            (frame_size codec)
            (silence_of codec)
            (concat (map (convert_of codec) (all_spoken chunks last)))
            l.sent
  unfolding play_session fed_of
  play_session-IsPlayed codec start chunks last =
      play_works (push (sound pack) open_link mu_law resample codec)
        (flush (sound pack) open_link mu_law resample codec) (Pushed codec start) (Done codec start)
        (push_works codec start) (flush_works codec start) []
        (record { enc = start; rest = []; sent = [] }) chunks last
        (record { blocks = []; joined = refl; sized = tt; reached = refl; out = refl }, pos codec)
