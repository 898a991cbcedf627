-- ===== src/Protocol/Tests.antt =====
-- Two requests on concrete answers, and the theorem at one.
use gocalis.Common.{◌≡◌, refl, true, false, none, some, [], ◌∷◌, pos}
use gocalis.Ask.{is_empty, gives, other, nanoseconds, blank_result, silence_timeout}
use gocalis.Protocol.{
  Request, Callees, publishes, speaks_all, tts_completed, error_event, callee_failed, tts, play,
  unspecified, execute, validate_request, validate_action, dispatch, execute_tts, execute_play,
  ask_config,
}
use gocalis.Protocol.Published.{publications, execute_answers}

abbrev broadcast : Request
broadcast = record {
  action = tts;
  node_id = b'a' ∷ b'l' ∷ b'l' ∷ [];
  text_ = 1 ∷ [];
  audio_file = [];
  priority = pos 0;
  audio_wav_base64 = [];
  context_id = [];
  barge_in = false;
  require_speaker_id = false;
  output_format = unspecified;
  vad_timeout = nanoseconds (pos 0);
  capture_delay = nanoseconds (pos 0);
  post_speech_silence = nanoseconds (pos 0);
}

abbrev callees : Callees
callees = record {
  is_blank = is_empty;
  context_err = none;
  spoken = none;
  decoded_base64 = none;
  decoded_wav = some (other 4);
  played = none;
  is_inside = true;
  transcribed = gives [];
  identified = gives [];
  asked = blank_result (ask_config broadcast) silence_timeout;
}

broadcast_speaks :
    execute callees broadcast ≡ speaks_all ∷ publishes (b'a' ∷ b'l' ∷ b'l' ∷ []) tts_completed ∷ []
unfolding execute validate_request validate_action dispatch execute_tts
broadcast_speaks = refl

-- A recording that is no WAV file is not played.
bad_recording :
    execute callees (record broadcast { action = play; audio_wav_base64 = 2 ∷ [] })
    ≡ publishes (b'a' ∷ b'l' ∷ b'l' ∷ []) (error_event (callee_failed (other 4))) ∷ []
unfolding execute validate_request validate_action dispatch execute_play
bad_recording = refl

execute_answers_example : publications (execute callees broadcast) ≡ 1
execute_answers_example = execute_answers callees broadcast
