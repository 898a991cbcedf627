-- ===== src/Playback.antt =====
-- internal/webrtc/client.go and internal/webrtc/talkback.go: the playback of a source. A line is what
-- cuts samples into frames, encodes them and sends them. The encoder, the conversion of a chunk and
-- what each send gives are parameters; samples and bytes are bit patterns, errors are numbers.
pub mod Framing
pub mod Whole
pub mod Client
pub mod Talkback
pub mod Resampled
mod Tests
use gocalis.Common.{
  ℕ, zero, suc, ◌+◌, ◌-◌, ◌==◌, leb, Bool, true, false, Option, none, some, List, [], ◌∷◌, ◌++◌,
  if◌then◌else◌, length, take, drop,
}
use gocalis.AudioSource.{ReadError, eof, Reading}

pub data PlayError : Type 0 where
  invalid_rate encode_failed index_panic : PlayError
  send_failed : ℕ → PlayError

pub data PlayResult : Type 0 where
  completed reading : PlayResult
  play_failed : PlayError → PlayResult
  read_failed : ReadError → PlayResult

-- The leftover samples (or bytes) of a playback, its encoder and what it has sent.
pub record Line (Enc : Type 0) : Type 0 where
  pub enc : Enc
  pub rest : List ℕ
  pub sent : List (List ℕ)

abbrev pub replicate : ℕ → ℕ → List ℕ
replicate zero x = []
replicate (suc n) x = x ∷ replicate n x

-- make, copy and the loop that writes the silence behind.
unfoldable pub padded : ℕ → ℕ → List ℕ → List ℕ
padded size silence xs = take size xs ++ replicate (size - length xs) silence

module _ {Enc : Type 0} where
  -- A send, where `link` says what the next one gives.
  unfoldable pub send : (ℕ → Option PlayError) → Line Enc → List ℕ → Line Enc × Option PlayError
  send link l payload = elim (link (length l.sent)) [
    | some e ↦ (l, some e)
    | none ↦ (record l { sent = l.sent ++ payload ∷ [] }, none)
  ]

  abbrev pub send_coded :
      (ℕ → Option PlayError) → Line Enc × Option (List ℕ) → Line Enc × Option PlayError
  send_coded link (l, none) = (l, some encode_failed)
  send_coded link (l, some payload) = send link l payload

  -- The loop over the whole frames, on fuel: a step is what a round does.
  unfoldable pub frame_loop :
      ℕ → (Line Enc → Line Enc × Option PlayError) → ℕ → Line Enc → Line Enc × Option PlayError
  frame_loop size step zero l = (l, none)
  frame_loop size step (suc fuel) l =
      let r = step l in
      let next = frame_loop size step fuel r.0 in
      if leb size (length l.rest)
      then elim r.1 [ some e ↦ (r.0, some e) | none ↦ next ]
      else (l, none)

  unfoldable pub push_frames :
      ℕ → (Line Enc → Line Enc × Option PlayError) → Line Enc → List ℕ → Line Enc × Option PlayError
  push_frames size step l samples =
      frame_loop size step (length (l.rest ++ samples)) (record l { rest = l.rest ++ samples })

-- The loop of PlayStream over what the source's reads give, and the flush behind it.
module _ {S : Type 0} (push : S → List ℕ → S × Option PlayError)
    (flush : S → S × Option PlayError) where
  abbrev pub after_flush : S × Option PlayError → S × PlayResult
  after_flush (s, none) = (s, completed)
  after_flush (s, some e) = (s, play_failed e)

  abbrev pub after_push : S × Option PlayError → Option ReadError → S × PlayResult → S × PlayResult
  after_push (s, some e) err rest = (s, play_failed e)
  after_push (s, none) none rest = rest
  after_push (s, none) (some eof) rest = after_flush (flush s)
  after_push (s, none) (some e) rest = (s, read_failed e)

  unfoldable pub play : S → List Reading → S × PlayResult
  play s [] = (s, reading)
  play s (r ∷ readings) =
      let pushed : S × Option PlayError = if length r.pcm == 0 then (s, none) else push s r.pcm in
      after_push pushed r.err (play pushed.0 readings)
