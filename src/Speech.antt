-- ===== src/Speech.antt =====
-- internal/ai/speech.go: the stream between the synthesis and the playback, a buffer of two seconds. A
-- wait on the condition is an outcome, and a push that waits goes on in later rounds. The conversion
-- of a float32 sample to int16 is a parameter, and samples are bit patterns.
pub mod Buffer
pub mod Finished
pub mod Jobs
pub mod Answers
mod Tests
use gocalis.Common.{
  ℕ, zero, suc, ◌+◌, ◌-◌, ◌*◌, ◌==◌, ltb, leb, Bool, true, false, not, ◌&&◌, ◌||◌, Option, none,
  some, List, [], ◌∷◌, ◌++◌, map, if◌then◌else◌, length, take, drop, min, CtxError,
}

pub data StreamError : Type 0 where
  too_long closed_pipe bad_chunk_size end_of_file no_speech : StreamError
  context_error : CtxError → StreamError

pub record SpeechStream : Type 0 where
  pub sample_rate : ℕ
  pub buf : List ℕ
  pub done : Bool
  pub err : Option StreamError
  pub total : ℕ

abbrev pub max_audio_seconds : ℕ
max_audio_seconds = 120

unfoldable pub new_stream : ℕ → SpeechStream
new_stream rate = record { sample_rate = rate; buf = []; done = false; err = none; total = 0 }

-- push up to its loop: the samples are counted, or the stream ends with an error.
unfoldable pub admit : SpeechStream → ℕ → SpeechStream × Option StreamError
admit s count =
    if ltb (s.sample_rate * max_audio_seconds) (s.total + count)
    then (record s { done = true; err = some too_long }, some too_long)
    else (record s { total = s.total + count }, none)

pub data Round : Type 0 where
  waits : Round
  fails : StreamError → Round
  -- the samples that are left
  moves : SpeechStream → List ℕ → Round

-- A round of push's loop, with what `ctx.Err()` answers.
unfoldable pub push_round : (ℕ → ℕ) → Option CtxError → SpeechStream → List ℕ → Round
push_round convert (some e) s samples = fails (context_error e)
push_round convert none s samples =
    let capacity = s.sample_rate * 2 in
    let n = min (length samples) (capacity - length s.buf) in
    if s.done
    then fails closed_pipe
    else if leb capacity (length s.buf)
    then waits
    else moves (record s { buf = s.buf ++ map convert (take n samples) }) (drop n samples)

unfoldable pub finish : SpeechStream → Option StreamError → SpeechStream
finish s err = if s.done then s else record s { done = true; err = err }

pub data Read : Type 0 where
  read_waits : Read
  read_fails : StreamError → Read
  reads : SpeechStream → List ℕ → Read

-- An empty stream that is done.
abbrev pub end_read : Option StreamError → Read
end_read none = read_fails end_of_file
end_read (some e) = read_fails e

-- ReadPCM16
unfoldable pub read_pcm16 : Option CtxError → ℕ → SpeechStream → Read
read_pcm16 ctx size s =
    let chunk =
      reads (record s { buf = drop (min size (length s.buf)) s.buf })
        (take (min size (length s.buf)) s.buf) in
    let live =
      if length s.buf == 0 then (if s.done then end_read s.err else read_waits) else chunk in
    if size == 0
    then read_fails bad_chunk_size
    else elim ctx [ some e ↦ read_fails (context_error e) | none ↦ live ]

-- One producer and one consumer: the samples of the push that is under way, those that have been
-- counted and those that have been read; the generator stops at a push that fails.
pub record Pipe : Type 0 where
  pub stream : SpeechStream
  pub left : List ℕ
  pub counted : List ℕ
  pub delivered : List ℕ
  pub aborted : Bool

pub data Event : Type 0 where
  pushes : List ℕ → Event
  resumes : Option CtxError → Event
  consumes : Option CtxError → ℕ → Event
  finishes : Option StreamError → Event

unfoldable pub new_pipe : ℕ → Pipe
new_pipe rate = record {
  stream = new_stream rate;
  left = [];
  counted = [];
  delivered = [];
  aborted = false;
}

-- A push begins when the one before it has come back.
abbrev pub after_admit : Pipe → List ℕ → SpeechStream × Option StreamError → Pipe
after_admit p samples (s, some e) = record p { stream = s; aborted = true }
after_admit p samples (s, none) = record p {
  stream = s;
  left = samples;
  counted = p.counted ++ samples;
}

unfoldable pub begin_push : Pipe → List ℕ → Pipe
begin_push p samples =
    if p.aborted || not (length p.left == 0)
    then p
    else after_admit p samples (admit p.stream (length samples))

abbrev pub after_round : Pipe → Round → Pipe
after_round p waits = p
after_round p (fails e) = record p { aborted = true }
after_round p (moves s rest) = record p { stream = s; left = rest }

abbrev pub after_read : Pipe → Read → Pipe
after_read p read_waits = p
after_read p (read_fails e) = p
after_read p (reads s chunk) = record p { stream = s; delivered = p.delivered ++ chunk }

unfoldable pub go_on : (ℕ → ℕ) → Pipe → Option CtxError → Pipe
go_on convert p ctx =
    if length p.left == 0 then p else after_round p (push_round convert ctx p.stream p.left)

unfoldable pub consume : Pipe → Option CtxError → ℕ → Pipe
consume p ctx size = after_read p (read_pcm16 ctx size p.stream)

unfoldable pub step : (ℕ → ℕ) → Pipe → Event → Pipe
step convert p (pushes samples) = begin_push p samples
step convert p (resumes ctx) = if p.aborted then p else go_on convert p ctx
step convert p (consumes ctx size) = consume p ctx size
step convert p (finishes err) = record p { stream = finish p.stream err }

unfoldable pub run : (ℕ → ℕ) → Pipe → List Event → Pipe
run convert p [] = p
run convert p (e ∷ es) = run convert (step convert p e) es
