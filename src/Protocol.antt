-- ===== src/Protocol.antt =====
-- internal/protocol/command.go: a request is validated and dispatched to its handler, which calls the
-- brain or a model and publishes a response. A run is the list of what it calls and publishes; what
-- the callees answer is the record Callees. Text is its bytes.
pub mod Published
mod Tests
use gocalis.Common.{
  ℕ, ◌==◌, ltb, Bool, true, false, not, ◌&&◌, ◌||◌, Option, none, some, List, [], ◌∷◌, ◌++◌,
  if◌then◌else◌, length, ℤ,
}
use gocalis.Ask.{
  Text, is_empty, is_all, Seconds, Config, Message, Result, Answer, fails, gives, GoError, validate,
  max_text_bytes,
}

pub data Action : Type 0 where
  tts asr speaker_id ask play unknown : Action

pub data OutputFormat : Type 0 where
  unspecified text audio both unsupported : OutputFormat

pub record Request : Type 0 where
  pub action : Action
  pub node_id : Text
  pub text_ : Text
  pub audio_file : Text
  pub priority : ℤ
  pub audio_wav_base64 : Text
  pub context_id : Text
  pub barge_in : Bool
  pub require_speaker_id : Bool
  pub output_format : OutputFormat
  pub vad_timeout : Seconds
  pub capture_delay : Seconds
  pub post_speech_silence : Seconds

pub data Failure : Type 0 where
  text_too_long identifier_too_long bad_output_format tts_incomplete play_incomplete : Failure
  payload_too_large no_audio_file unknown_action outside_directory : Failure
  missing_text missing_node missing_audio missing_audio_file : Failure
  ask_invalid : Message → Failure
  callee_failed : GoError → Failure

unfoldable pub ask_config : Request → Config
ask_config r = record {
  context_id = r.context_id;
  node_id = r.node_id;
  tts_text = r.text_;
  barge_in = r.barge_in;
  require_speaker_id = r.require_speaker_id;
  vad_timeout = r.vad_timeout;
  priority = r.priority;
  capture_delay = r.capture_delay;
  post_speech_silence = r.post_speech_silence;
}

abbrev pub is_unsupported : OutputFormat → Bool
is_unsupported unsupported = true
is_unsupported _ = false

-- The switch of Validate on the action.
unfoldable pub validate_action : (Text → Bool) → Request → Option Failure
validate_action is_blank r = elim r.action [
  | tts ↦ if is_empty r.node_id || is_blank r.text_ then some tts_incomplete else none
  | play ↦
      if is_empty r.node_id || is_empty r.audio_wav_base64
      then some play_incomplete
      else if ltb 8388608 (length r.audio_wav_base64)
      then some payload_too_large
      else none
  | asr ↦ if is_empty r.audio_file then some no_audio_file else none
  | speaker_id ↦ if is_empty r.audio_file then some no_audio_file else none
  | ask ↦ elim (validate (ask_config r)) [ none ↦ none | some m ↦ some (ask_invalid m) ]
  | unknown ↦ some unknown_action
]

unfoldable pub validate_request : (Text → Bool) → Request → Option Failure
validate_request is_blank r =
    if ltb max_text_bytes (length r.text_)
    then some text_too_long
    else if ltb 256 (length r.context_id)
        || (ltb 256 (length r.node_id) || ltb 4096 (length r.audio_file))
    then some identifier_too_long
    else if is_unsupported r.output_format
    then some bad_output_format
    else validate_action is_blank r

-- The event of a response, with the fields that depend on the run.
pub data Response : Type 0 where
  error_event : Failure → Response
  tts_completed play_completed : Response
  asr_completed speaker_id_completed : Text → Response
  -- the result, and whether the text and the recording are attached
  ask_completed : Result → Bool → Bool → Response

pub data Effect : Type 0 where
  speaks speaks_all plays plays_all transcribes identifies asks : Effect
  publishes : Text → Response → Effect

pub record Callees : Type 0 where
  pub is_blank : Text → Bool
  pub context_err : Option GoError
  pub spoken : Option GoError
  pub decoded_base64 : Option GoError
  pub decoded_wav : Option GoError
  pub played : Option GoError
  pub is_inside : Bool
  pub transcribed : Answer Text
  pub identified : Answer Text
  pub asked : Result

abbrev pub publish_error : Request → Failure → List Effect
publish_error r f = publishes r.node_id (error_event f) ∷ []

-- The end that the handlers share: an error of the callee, or the completed event.
abbrev pub complete : Request → Effect → Option GoError → Response → List Effect
complete r call err response = elim err [
  | some e ↦ call ∷ publish_error r (callee_failed e)
  | none ↦ call ∷ publishes r.node_id response ∷ []
]

-- The guards that Validate has already made are made again.
unfoldable pub execute_tts : Callees → Request → List Effect
execute_tts c r =
    if is_empty r.text_
    then publish_error r missing_text
    else if is_empty r.node_id
    then publish_error r missing_node
    else complete r (if is_all r.node_id then speaks_all else speaks) c.spoken tts_completed

unfoldable pub execute_play : Callees → Request → List Effect
execute_play c r =
    if is_empty r.node_id
    then publish_error r missing_node
    else if is_empty r.audio_wav_base64
    then publish_error r missing_audio
    else elim c.decoded_base64 [
      | some e ↦ publish_error r (callee_failed e)
      | none ↦ elim c.decoded_wav [
        | some e ↦ publish_error r (callee_failed e)
        | none ↦ complete r (if is_all r.node_id then plays_all else plays) c.played play_completed
      ]
    ]

-- resolveAudioFile; whether the cleaned path lies in the directory is the library's answer.
abbrev pub resolve_audio_file : Callees → Request → Option Failure
resolve_audio_file c r =
    if is_empty r.audio_file
    then some missing_audio_file
    else if c.is_inside
    then none
    else some outside_directory

unfoldable pub execute_asr : Callees → Request → List Effect
execute_asr c r = elim (resolve_audio_file c r) [
  | some f ↦ publish_error r f
  | none ↦ elim c.transcribed [
    | fails e ↦ transcribes ∷ publish_error r (callee_failed e)
    | gives t ↦ transcribes ∷ publishes r.node_id (asr_completed t) ∷ []
  ]
]

unfoldable pub execute_speaker_id : Callees → Request → List Effect
execute_speaker_id c r = elim (resolve_audio_file c r) [
  | some f ↦ publish_error r f
  | none ↦ elim c.identified [
    | fails e ↦ identifies ∷ publish_error r (callee_failed e)
    | gives t ↦ identifies ∷ publishes r.node_id (speaker_id_completed t) ∷ []
  ]
]

abbrev pub has_text : OutputFormat → Bool
has_text audio = false
has_text _ = true

abbrev pub has_audio : OutputFormat → Bool
has_audio text = false
has_audio _ = true

unfoldable pub execute_ask : Callees → Request → List Effect
execute_ask c r =
    if is_empty r.node_id
    then publish_error r missing_node
    else asks
      ∷ publishes r.node_id (
          ask_completed c.asked (has_text r.output_format)
            (has_audio r.output_format && not (is_empty c.asked.audio)))
      ∷ []

unfoldable pub dispatch : Callees → Request → List Effect
dispatch c r = elim r.action [
  | tts ↦ execute_tts c r
  | asr ↦ execute_asr c r
  | speaker_id ↦ execute_speaker_id c r
  | ask ↦ execute_ask c r
  | play ↦ execute_play c r
  | unknown ↦ publish_error r unknown_action
]

unfoldable pub execute : Callees → Request → List Effect
execute c r = elim (validate_request c.is_blank r) [
  | some f ↦ publish_error r f
  | none ↦ elim c.context_err [ some e ↦ publish_error r (callee_failed e) | none ↦ dispatch c r ]
]
