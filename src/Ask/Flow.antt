-- ===== src/Ask/Flow.antt =====
-- internal/ask/ask.go: Run, as steps that append what they do. A step either returns a result, which
-- ends the run, or goes on with a value.
use gocalis.Common.{
  ℕ, ◌*◌, ◌==◌, pos, Bool, true, false, not, ◌&&◌, Option, none, some, List, [], ◌∷◌, ◌++◌,
  if◌then◌else◌, length,
}
use gocalis.Node.{NodeState, idle, speaking, listening, processing, challenging}
use gocalis.Ask.{
  Text, is_empty, GoError, is_canceled, is_canceled_itself, Answer, fails, gives, Seconds,
  nanoseconds, Config, success, silence_timeout, verification_failed, no_challenge_prompts,
  cancelled_during_challenge, failed_with, asr_failed, challenge_synthesis_failed,
  challenge_playback_failed, Result, second, validate, blank_result, error_result,
}

-- What a run does, in order.
pub data Effect : Type 0 where
  acquires releases : Effect
  sets_state : NodeState → Effect
  adds_session ends_session removes_session : Effect
  starts_synthesis plays_prompt arms_barge_in disarms_barge_in : Effect
  plays_start_chime plays_stop_chime delays : Effect
  to_listening resets_capture starts_capture stops_capture to_processing : Effect
  waits_endpoint : ℕ → ℕ → Effect
  saves_recording transcribes identifies : Effect
  synthesizes_challenge plays_challenge pauses synthesizes_refusal plays_refusal : Effect

-- When the goroutine that waits for a barge-in sets the node to listening.
pub data Announced : Type 0 where
  not_announced before_speaking during_prompt : Announced

-- What the rest of the program answers to a run, in the order in which the run asks.
pub record Outside : Type 0 where
  pub acquired : Option GoError
  pub is_blank : Text → Bool
  pub synthesis : Option GoError
  pub prompt_rate : ℕ
  pub announced : Announced
  pub playback : Option GoError
  pub barged : Bool
  pub context_at_prompt : Option GoError
  pub can_reset : Bool
  pub node_silence : ℕ
  pub captured : List ℕ
  pub context_at_capture : Option GoError
  pub transcription : Answer Text
  pub is_long_enough : ℕ → Bool
  pub identified : Answer Text
  pub has_challenge : Bool
  pub challenge_synthesis : Option GoError
  pub challenge_playback : Option GoError
  pub pause_cancelled : Bool
  pub captured_again : List ℕ
  pub context_at_challenge : Option GoError
  pub identified_again : Answer Text
  pub refusal_synthesis : Answer (List ℕ)

pub data Step (A : Type 0) : Type 0 where
  returns : List Effect → Result → Step A
  goes : List Effect → A → Step A

abbrev pub then_do : {A B : Type 0} → Step A → (A → Step B) → Step B
then_do (returns es r) k = returns es r
then_do (goes es a) k = elim (k a) [
  | returns fs r ↦ returns (es ++ fs) r
  | goes fs b ↦ goes (es ++ fs) b
]

-- Whether the prompt was interrupted, and whether the chime has been played behind it.
pub record Prompted : Type 0 where
  pub barged : Bool
  pub chimed : Bool

abbrev pub nothing_prompted : Prompted
nothing_prompted = record { barged = false; chimed = false }

-- The playback with its barge-in goroutine.
abbrev pub play_prompt : Config → Outside → List Effect
play_prompt c o =
    if c.barge_in
    then elim o.announced [
      | not_announced ↦
          starts_synthesis
          ∷ arms_barge_in
          ∷ sets_state speaking
          ∷ plays_prompt
          ∷ disarms_barge_in
          ∷ []
      | before_speaking ↦
          starts_synthesis
          ∷ arms_barge_in
          ∷ sets_state listening
          ∷ sets_state speaking
          ∷ plays_prompt
          ∷ disarms_barge_in
          ∷ []
      | during_prompt ↦
          starts_synthesis
          ∷ arms_barge_in
          ∷ sets_state speaking
          ∷ plays_prompt
          ∷ sets_state listening
          ∷ disarms_barge_in
          ∷ []
    ]
    else starts_synthesis ∷ sets_state speaking ∷ plays_prompt ∷ disarms_barge_in ∷ []

-- `err != nil && !(barged && errors.Is(err, context.Canceled))`
abbrev pub is_playback_failure : Bool → GoError → Bool
is_playback_failure barged err = not (barged && is_canceled err)

abbrev pub after_prompt : Config → Outside → Step Prompted
after_prompt c o = elim o.context_at_prompt [
  | some err ↦ returns (play_prompt c o) (error_result c (failed_with err))
  | none ↦ elim o.playback [
    | none ↦ goes (play_prompt c o) (record { barged = o.barged; chimed = true })
    | some err ↦
        if is_playback_failure o.barged err
        then returns (play_prompt c o) (error_result c (failed_with err))
        else goes (play_prompt c o) (record { barged = o.barged; chimed = true })
  ]
]

-- Phase 1.
unfoldable pub speak_prompt : Config → Outside → Step Prompted
speak_prompt c o = if o.is_blank c.tts_text then goes [] nothing_prompted else elim o.synthesis [
  | some err ↦ returns (starts_synthesis ∷ []) (error_result c (failed_with err))
  | none ↦
      if o.prompt_rate == 0 then goes (starts_synthesis ∷ []) nothing_prompted else after_prompt c o
]

abbrev pub is_positive : Seconds → Bool
is_positive (nanoseconds (pos n)) = not (n == 0)
is_positive _ = false

abbrev pub start_chime : Config → Prompted → List Effect
start_chime c p =
    if p.barged
    then []
    else if p.chimed
    then (if is_positive c.capture_delay then delays ∷ [] else [])
    else if is_positive c.capture_delay
    then sets_state speaking ∷ plays_start_chime ∷ delays ∷ []
    else sets_state speaking ∷ plays_start_chime ∷ []

-- A duration, or a default where it is not positive.
abbrev pub or_default : Seconds → ℕ → ℕ
or_default (nanoseconds (pos n)) d = if n == 0 then d else n
or_default _ d = d

abbrev pub endpoint : Config → Outside → Effect
endpoint c o =
    waits_endpoint (or_default c.vad_timeout (10 * second))
      (or_default c.post_speech_silence o.node_silence)

abbrev pub open_capture : Outside → List Effect
open_capture o = if o.can_reset then resets_capture ∷ starts_capture ∷ [] else starts_capture ∷ []

abbrev pub listen : Config → Outside → Prompted → List Effect
listen c o p =
    to_listening
    ∷ ((if p.barged then [] else open_capture o)
        ++ (sets_state listening ∷ endpoint c o ∷ stops_capture ∷ []))

-- Phase 2, up to the silence of a turn in which nothing was said.
unfoldable pub capture : Config → Outside → Prompted → Step Unit
capture c o p =
    let heard = start_chime c p ++ listen c o p in
    elim o.context_at_capture [
      | some err ↦ returns heard (error_result c (failed_with err))
      | none ↦
          let closed = heard ++ (plays_stop_chime ∷ to_processing ∷ sets_state processing ∷ []) in
          if is_empty o.captured
          then returns closed (blank_result c silence_timeout)
          else goes closed tt
    ]

unfoldable pub recognise : Config → Outside → Step Text
recognise c o = elim o.transcription [
  | fails err ↦ returns (saves_recording ∷ transcribes ∷ []) (error_result c (asr_failed err))
  | gives text ↦ goes (saves_recording ∷ transcribes ∷ []) text
]

-- The speaker that the first recording is matched with; too short a recording is not compared.
unfoldable pub match_speaker : Outside → Step Text
match_speaker o =
    if o.is_long_enough (length o.captured)
    then elim o.identified [
      | fails err ↦ goes (identifies ∷ []) []
      | gives speaker ↦ goes (identifies ∷ []) speaker
    ]
    else goes [] []

-- playFailPrompt
abbrev pub play_refusal : Outside → List Effect
play_refusal o = elim o.refusal_synthesis [
  | fails err ↦ synthesizes_refusal ∷ []
  | gives samples ↦
      if is_empty samples
      then synthesizes_refusal ∷ []
      else synthesizes_refusal ∷ sets_state speaking ∷ plays_refusal ∷ []
]

-- The challenge up to its recording.
unfoldable pub pose_challenge : Config → Outside → Step Unit
pose_challenge c o =
    let asked = sets_state challenging ∷ synthesizes_challenge ∷ [] in
    let spoken = asked ++ (sets_state speaking ∷ plays_challenge ∷ []) in
    let paused : Step Unit =
      if o.pause_cancelled
      then returns (spoken ++ (pauses ∷ [])) (error_result c cancelled_during_challenge)
      else goes (spoken ++ (pauses ∷ [])) tt in
    if o.has_challenge
    then elim o.challenge_synthesis [
      | some err ↦ returns asked (error_result c (challenge_synthesis_failed err))
      | none ↦ elim o.challenge_playback [
        | none ↦ paused
        | some err ↦
            if is_canceled_itself err
            then paused
            else returns spoken (error_result c (challenge_playback_failed err))
      ]
    ]
    else returns (sets_state challenging ∷ []) (error_result c no_challenge_prompts)

-- The second recording, and what it is matched with.
unfoldable pub hear_challenge : Config → Outside → Step Text
hear_challenge c o =
    let heard = listen c o nothing_prompted in
    let closed = heard ++ (plays_stop_chime ∷ to_processing ∷ sets_state processing ∷ []) in
    let refused : Step Text =
      returns (closed ++ (identifies ∷ play_refusal o)) (blank_result c verification_failed) in
    elim o.context_at_challenge [
      | some err ↦ returns heard (error_result c (failed_with err))
      | none ↦
          if is_empty o.captured_again
          then returns (closed ++ play_refusal o) (blank_result c verification_failed)
          else elim o.identified_again [
            | fails err ↦ refused
            | gives speaker ↦
                if is_empty speaker then refused else goes (closed ++ (identifies ∷ [])) speaker
          ]
    ]

unfoldable pub challenge : Config → Outside → Step Text
challenge c o = then_do (pose_challenge c o) (λ _. hear_challenge c o)

-- A speaker that was matched is taken, else the challenge decides.
unfoldable pub accept_or_challenge : Config → Outside → Text → Step Text
accept_or_challenge c o speaker = if is_empty speaker then challenge c o else goes [] speaker

unfoldable pub verify_identity : Config → Outside → Step Text
verify_identity c o = then_do (match_speaker o) (accept_or_challenge c o)

unfoldable pub verify_speaker : Config → Outside → Step Text
verify_speaker c o = if c.require_speaker_id then verify_identity c o else goes [] []

unfoldable pub succeed : Config → Outside → Text → Text → Step Result
succeed c o text speaker = returns [] (record (blank_result c success) {
  transcription = text;
  speaker = speaker;
  audio = o.captured;
  sample_rate = 16000;
})

-- The run behind AcquireNode, without what it has deferred.
unfoldable pub turn : Config → Outside → Step Result
turn c o = then_do (speak_prompt c o) (λ p. then_do (capture c o p) (λ _.
    then_do (recognise c o)
      (λ text. then_do (verify_speaker c o) (λ speaker. succeed c o text speaker))))

pub record Ran : Type 0 where
  pub effects : List Effect
  pub result : Result

-- What Run has deferred once it has the turn, in the order in which it happens.
abbrev pub deferred : List Effect
deferred = ends_session ∷ removes_session ∷ sets_state idle ∷ releases ∷ []

abbrev pub finish : List Effect → Result → Ran
finish es r = record {
  effects = acquires ∷ sets_state processing ∷ adds_session ∷ (es ++ deferred);
  result = r;
}

unfoldable pub run : Config → Outside → Ran
run c o = elim (validate c) [
  | some message ↦ record { effects = []; result = error_result c message }
  | none ↦ elim o.acquired [
    | some err ↦ record { effects = []; result = error_result c (failed_with err) }
    | none ↦ elim (turn c o) [ returns es r ↦ finish es r | goes es r ↦ finish es r ]
  ]
]
