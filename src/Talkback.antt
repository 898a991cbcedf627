-- ===== src/Talkback.antt =====
-- internal/webrtc/talkback.go: the queue of encoded frames between a playback and the goroutine that
-- paces them onto the track. A wait on the condition is an outcome; a frame is a value, and what
-- WriteSample answers is given with the write. The timing statistics are left out.
pub mod History
pub mod Fifo
pub mod Waiting
mod Tests
use gocalis.Common.{
  ℕ, suc, ◌+◌, ◌==◌, ltb, leb, Bool, true, false, not, ◌&&◌, ◌||◌, Option, none, some, List, [],
  ◌∷◌, ◌++◌, if◌then◌else◌, length, CtxError,
}

pub data SendError : Type 0 where
  closed_pipe : SendError
  context_error : CtxError → SendError
  write_failed : ℕ → SendError

abbrev pub Frame : Type 0
Frame = List ℕ

pub record Sender : Type 0 where
  pub queue : List Frame
  pub closed : Bool
  pub failure : Option SendError
  pub write_failures : ℕ
  pub queue_high_water : ℕ
  pub underruns : ℕ
  pub playing : Bool
  pub first_audio_sent : Bool
  pub in_flight : Bool

-- Where the goroutine of run is.
pub data Phase : Type 0 where
  waits_tick writes_silence ended : Phase
  writes_audio : Frame → Phase

unfoldable pub new_sender : Sender
new_sender = record {
  queue = [];
  closed = false;
  failure = none;
  write_failures = 0;
  queue_high_water = 0;
  underruns = 0;
  playing = false;
  first_audio_sent = false;
  in_flight = false;
}

pub data Enqueued : Type 0 where
  waits : Enqueued
  refused : SendError → Enqueued
  accepted : Sender → Enqueued

abbrev pub is_live : Option CtxError → Bool
is_live none = true
is_live (some e) = false

abbrev pub reason : Option SendError → SendError
reason none = closed_pipe
reason (some e) = e

-- enqueue, with what `ctx.Err()` answers.
unfoldable pub enqueue : Option CtxError → Sender → Frame → Enqueued
enqueue ctx t frame =
    let count = length t.queue + 1 in
    let appended = record t {
      queue = t.queue ++ frame ∷ [];
      queue_high_water = if ltb t.queue_high_water count then count else t.queue_high_water;
    } in
    if leb 100 (length t.queue) && not t.closed && is_live ctx then waits else elim ctx [
      | some e ↦ refused (context_error e)
      | none ↦ if t.closed then refused (reason t.failure) else accepted appended
    ]

-- A tick of run: the frame that it writes next.
abbrev pub taken : Sender → List Frame → Sender × Phase
taken t [] = (
  record t { underruns = if t.playing && t.first_audio_sent then t.underruns + 1 else t.underruns },
  writes_silence,
)
taken t (frame ∷ queue) = (
  record t { queue = queue; in_flight = true; first_audio_sent = t.playing || t.first_audio_sent },
  writes_audio frame,
)

unfoldable pub tick : Sender → Sender × Phase
tick t = if t.closed then (t, ended) else taken t t.queue

-- Behind WriteSample.
unfoldable pub wrote : Sender → Option ℕ → Sender × Phase
wrote t none = (record t { in_flight = false }, waits_tick)
wrote t (some e) = (
  record t {
    write_failures = t.write_failures + 1;
    failure = some (write_failed e);
    closed = true;
    queue = [];
    in_flight = false;
  },
  ended,
)

-- The end of run's context, and close.
unfoldable pub shut : Sender → Sender
shut t = record t { closed = true; queue = [] }

-- The start of PlayStream, and the end of it.
unfoldable pub begin_playback : Sender → Sender
begin_playback t = record t { playing = true; first_audio_sent = false }

unfoldable pub clear_pending : Sender → Sender
clear_pending t = record t { queue = []; playing = false }

pub data Drained : Type 0 where
  still_busy : Drained
  gave_up : SendError → Drained
  drained : Drained

unfoldable pub wait_drained : Option CtxError → Sender → Drained
wait_drained ctx t =
    if (ltb 0 (length t.queue) || t.in_flight) && not t.closed && is_live ctx
    then still_busy
    else elim ctx [
      | some e ↦ gave_up (context_error e)
      | none ↦ if t.closed then gave_up (reason t.failure) else drained
    ]
