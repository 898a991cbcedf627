-- ===== src/Ask/Tests.antt =====
-- Runs of Ask on concrete answers, and the theorems at them.
use gocalis.Common.{◌≡◌, ◌≢◌, refl, true, false, none, some, [], ◌∷◌, arith, pos, leb}
use gocalis.Ask.{
  gives, Config, nanoseconds, success, silence_timeout, verification_failed, validate, is_empty,
}
use gocalis.Ask.Flow.{
  Outside, during_prompt, run, turn, speak_prompt, capture, recognise, verify_speaker,
  verify_identity, match_speaker, accept_or_challenge, challenge, pose_challenge, hear_challenge,
  succeed,
}
use gocalis.Ask.Ending.{Releases, run-Releases, run_verifies}
use gocalis.Ask.Admission.{validate-IsBounded, IsBounded, IsOverdue, NotAfter, Tick}

abbrev asks : Config
asks = record {
  context_id = [];
  node_id = 7 ∷ [];
  tts_text = 1 ∷ 2 ∷ [];
  barge_in = true;
  require_speaker_id = true;
  vad_timeout = nanoseconds (pos 5000000000);
  priority = pos 0;
  capture_delay = nanoseconds (pos 0);
  post_speech_silence = nanoseconds (pos 0);
}

-- The prompt is interrupted, the first recording is matched with nobody, the second with speaker 9.
abbrev answers : Outside
answers = record {
  acquired = none;
  is_blank = is_empty;
  synthesis = none;
  prompt_rate = 24000;
  announced = during_prompt;
  playback = none;
  barged = true;
  context_at_prompt = none;
  can_reset = true;
  node_silence = 1500000000;
  captured = 3 ∷ 4 ∷ [];
  context_at_capture = none;
  transcription = gives (5 ∷ []);
  is_long_enough = λ n. leb 1 n;
  identified = gives [];
  has_challenge = true;
  challenge_synthesis = none;
  challenge_playback = none;
  pause_cancelled = false;
  captured_again = 6 ∷ [];
  context_at_challenge = none;
  identified_again = gives (9 ∷ []);
  refusal_synthesis = gives [];
}

abbrev nobody_speaks : Outside
nobody_speaks = record answers { captured = [] }

-- The run takes the challenge and succeeds with its speaker.
challenged :
    ((run asks answers).result.status ≡ success) × ((run asks answers).result.speaker ≡ 9 ∷ [])
unfolding run validate turn speak_prompt capture recognise verify_speaker verify_identity
    match_speaker accept_or_challenge challenge pose_challenge hear_challenge succeed
challenged = (refl, refl)

-- A challenge that is not answered fails the verification.
unanswered : (run asks (record answers { captured_again = [] })).result.status ≡ verification_failed
unfolding run validate turn speak_prompt capture recognise verify_speaker verify_identity
    match_speaker accept_or_challenge challenge pose_challenge hear_challenge succeed
unanswered = refl

silent_status : (run asks nobody_speaks).result.status ≡ silence_timeout
unfolding run validate turn speak_prompt capture recognise verify_speaker verify_identity
    match_speaker accept_or_challenge challenge pose_challenge hear_challenge succeed
silent_status = refl

asks_valid : validate asks ≡ none
unfolding validate
asks_valid = refl

run-Releases_example : Releases (run asks answers).effects
run-Releases_example = run-Releases asks answers asks_valid refl

run_verifies_example :
    ((run asks answers).result.audio ≢ []) × (true ≡ true → (run asks answers).result.speaker ≢ [])
run_verifies_example = run_verifies asks answers challenged.0

validate-IsBounded_example : IsBounded asks
validate-IsBounded_example = validate-IsBounded asks asks_valid

-- Speech begins and pauses; a minute of pauses later the turn is at its longest.
abbrev early_tick : Tick
early_tick = record { now = 1000; speech = none; is_done = false }

abbrev late_tick : Tick
late_tick = record { now = 130000000000; speech = some (2000, 129999999999); is_done = false }

early : NotAfter 130000000000 (early_tick ∷ [])
unfolding NotAfter
early = (omega arith, tt)

late : IsOverdue 0 5000000000 late_tick
late = record { unspoken = λ e. ground (arith, e); spoken = λ started last e. ground (arith, e) }
