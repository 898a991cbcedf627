-- ===== src/AudioSource.antt =====
-- internal/audionode/audionode.go, internal/ask/prompt.go and the loop of PlayStream in
-- internal/audionode/stub.go: PCM16 read in chunks. A source is a state with its ReadPCM16; samples
-- are 16-bit patterns, and a chunk size that is not positive is 0.
pub mod Concat
mod Tests
use gocalis.Common.{
  ℕ, zero, suc, ◌+◌, ◌-◌, ◌==◌, Bool, true, false, not, Option, none, some, List, [], ◌∷◌, ◌++◌,
  if◌then◌else◌, length, take, drop, min, CtxError,
}

pub data ReadError : Type 0 where
  eof bad_chunk_size : ReadError
  context_error : CtxError → ReadError
  other_error : ℕ → ReadError

pub record Reading : Type 0 where
  pub pcm : List ℕ
  pub err : Option ReadError

pub record SliceSource : Type 0 where
  pub samples : List ℕ
  pub rate : ℕ
  pub offset : ℕ

unfoldable pub new_slice_source : List ℕ → ℕ → SliceSource
new_slice_source samples rate = record { samples = samples; rate = rate; offset = 0 }

abbrev pub failing : ReadError → Reading
failing e = record { pcm = []; err = some e }

-- ReadPCM16, with what `ctx.Err()` answers.
unfoldable pub read_slice : Option CtxError → ℕ → SliceSource → SliceSource × Reading
read_slice (some e) size s = (s, failing (context_error e))
read_slice none size s =
    let end = min (length s.samples) (s.offset + size) in
    if size == 0
    then (s, failing bad_chunk_size)
    else if s.offset == length s.samples
    then (s, failing eof)
    else (
      record s { offset = end },
      record { pcm = take (end - s.offset) (drop s.offset s.samples); err = none },
    )

pub record PromptSource (S : Type 0) : Type 0 where
  pub prompt : S
  pub tail : SliceSource
  pub ended : Bool

abbrev pub is_eof : Option ReadError → Bool
is_eof (some eof) = true
is_eof _ = false

module _ {S : Type 0} where
  abbrev pub read_tail : Option CtxError → ℕ → PromptSource S → PromptSource S × Reading
  read_tail ctx size s =
      let r = read_slice ctx size s.tail in (record s { tail = r.0; ended = true }, r.1)

  -- ReadPCM16 of the prompt's source, which `read_prompt` stands for, and then of the tail.
  unfoldable pub read_prompt_source :
      (S → S × Reading) → Option CtxError → ℕ → PromptSource S → PromptSource S × Reading
  read_prompt_source read_prompt ctx size s =
      let r = read_prompt s.prompt in
      let behind = record s { prompt = r.0 } in
      if s.ended
      then read_tail ctx size s
      else if is_eof r.1.err
      then (if length r.1.pcm == 0
          then read_tail ctx size behind
          else (record behind { ended = true }, record { pcm = r.1.pcm; err = none }))
      else (behind, r.1)

pub data Playing : Type 0 where
  played : List ℕ → Playing
  stopped : ReadError → Playing
  still_playing : Playing

-- What a round does behind its read: it goes on, or ends with io.EOF or another error.
abbrev pub after_read : Option ReadError → List ℕ → Playing → Playing
after_read none all rest = rest
after_read (some eof) all rest = played all
after_read (some e) all rest = stopped e

-- PlayStream's loop over rounds, each with what `ctx.Err()` answers in it: the samples that it
-- records as one entry of Played, or its error.
unfoldable pub play_stream :
    {S : Type 0} → (S → S × Reading) → List (Option CtxError) → S → List ℕ → Playing
play_stream read [] s buf = still_playing
play_stream read (ctx ∷ rounds) s buf =
    let r = read s in
    let all = buf ++ r.1.pcm in
    let rest = play_stream read rounds r.0 all in
    elim ctx [ some e ↦ stopped (context_error e) | none ↦ after_read r.1.err all rest ]
