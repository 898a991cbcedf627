-- ===== src/Ask.antt =====
-- internal/ask/ask.go: a turn that asks and listens. A run is seen as the list of what it does to the
-- node, the session, the brain and the models, with the result that it returns; what these answer is
-- the record Outside. Text is its bytes, a float32 sample its bit pattern. A float64 of seconds is a
-- NaN, an infinity or a whole number of nanoseconds. The log lines and the timings are left out.
pub mod Flow
pub mod Ending
pub mod Admission
mod Tests
use gocalis.Common.{
  ℕ, zero, suc, ◌*◌, ◌+◌, ◌==◌, ltb, leb, ltb_ℤ, ℤ, pos, negsuc, Bool, true, false, not, ◌&&◌, ◌||◌,
  Option, none, some, List, [], ◌∷◌, ◌++◌, if◌then◌else◌, length,
}
use gocalis.Node.{NodeState, idle, speaking, listening, processing, challenging}

abbrev pub Text : Type 0
Text = List ℕ

abbrev pub is_empty : List ℕ → Bool
is_empty [] = true
is_empty (x ∷ xs) = false

-- The errors of the calls, told apart as errors.Is and `==` tell them apart.
pub data GoError : Type 0 where
  canceled : GoError
  wraps_canceled other : ℕ → GoError

-- errors.Is(err, context.Canceled)
abbrev pub is_canceled : GoError → Bool
is_canceled canceled = true
is_canceled (wraps_canceled n) = true
is_canceled (other n) = false

-- `err == context.Canceled`
abbrev pub is_canceled_itself : GoError → Bool
is_canceled_itself canceled = true
is_canceled_itself (wraps_canceled n) = false
is_canceled_itself (other n) = false

pub data Answer (A : Type 0) : Type 0 where
  fails : GoError → Answer A
  gives : A → Answer A

pub data Seconds : Type 0 where
  not_a_number infinite : Seconds
  nanoseconds : ℤ → Seconds

pub record Config : Type 0 where
  pub context_id : Text
  pub node_id : Text
  pub tts_text : Text
  pub barge_in : Bool
  pub require_speaker_id : Bool
  pub vad_timeout : Seconds
  pub priority : ℤ
  pub capture_delay : Seconds
  pub post_speech_silence : Seconds

pub data Status : Type 0 where
  success silence_timeout verification_failed error : Status

pub data Message : Type 0 where
  needs_one_node prompt_too_long invalid_duration : Message
  no_challenge_prompts cancelled_during_challenge : Message
  failed_with asr_failed challenge_synthesis_failed challenge_playback_failed : GoError → Message

pub record Result : Type 0 where
  pub context_id : Text
  pub node_id : Text
  pub status : Status
  pub transcription : Text
  pub speaker : Text
  pub error_message : Option Message
  pub audio : List ℕ
  pub sample_rate : ℕ

abbrev pub max_text_bytes : ℕ
max_text_bytes = 4000

abbrev pub second : ℕ
second = 1000000000

abbrev pub max_audio_seconds : ℕ
max_audio_seconds = 120

abbrev pub all_nodes : Text
all_nodes = b'a' ∷ b'l' ∷ b'l' ∷ []

abbrev pub is_all : Text → Bool
is_all (a ∷ b ∷ c ∷ []) = a == b'a' && (b == b'l' && c == b'l')
is_all _ = false

-- One pass of the loop over the durations.
abbrev pub is_within : Seconds → ℕ → Bool
is_within not_a_number limit = false
is_within infinite limit = false
is_within (nanoseconds (negsuc n)) limit = false
is_within (nanoseconds (pos n)) limit = leb n (limit * second)

unfoldable pub validate : Config → Option Message
validate c =
    if is_empty c.node_id || is_all c.node_id
    then some needs_one_node
    else if ltb max_text_bytes (length c.tts_text)
    then some prompt_too_long
    else if is_within c.vad_timeout max_audio_seconds
        && (is_within c.capture_delay 20 && is_within c.post_speech_silence 20)
    then none
    else some invalid_duration

abbrev pub blank_result : Config → Status → Result
blank_result c status = record {
  context_id = c.context_id;
  node_id = c.node_id;
  status = status;
  transcription = [];
  speaker = [];
  error_message = none;
  audio = [];
  sample_rate = 0;
}

abbrev pub error_result : Config → Message → Result
error_result c message = record (blank_result c error) { error_message = some message }
