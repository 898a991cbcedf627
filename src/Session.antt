-- ===== src/Session.antt =====
-- internal/session/session.go: one voice turn, its capture buffer and its barge-in signal.
-- A sample is of any type, since the session only moves samples. A time is a number and the zero
-- time `none`; time.Now() is an argument. The signal channel, made with room for one, is the number
-- of signals in it, and `none` is the nil channel.
pub mod Capture
pub mod Total
pub mod Calls
pub mod Barge
pub mod Registry
mod Tests
mod RegistryTests
use gocalis.Common.{
  ℕ, suc, ◌+◌, ◌-◌, ◌*◌, ◌/◌, ◌≤◌, ltb, Bool, true, false, not, ◌&&◌, Option, none, some, List, [],
  ◌∷◌, ◌++◌, if◌then◌else◌, length, take, drop,
}

pub data State : Type 0 where
  prompting listening processing done : State

pub record Session (A : Type 0) : Type 0 where
  pub id : ℕ
  pub node_id : ℕ
  pub state : State
  pub capture_active : Bool
  pub captured : List A
  pub pre_roll : List A
  pub speech_started : Option ℕ
  pub last_speech : Option ℕ
  pub barged : Bool
  pub barge_armed : Bool
  pub barge_ch : Option ℕ

-- 16000*120 and 16000/4 samples.
abbrev pub capture_limit : ℕ
capture_limit = 16000 * 120

abbrev pub pre_roll_limit : ℕ
pre_roll_limit = 16000 / 4

-- What a call of FeedPCM comes to. `blocked` is a send on a nil or a full channel, with the mutex
-- held; `panicked` is a slice expression out of range.
pub data Fed (A : Type 0) : Type 0 where
  fed : Session A → Fed A
  blocked panicked : Fed A

module _ {A : Type 0} where
  pub new : ℕ → ℕ → Session A
  new id node_id = record {
    id = id;
    node_id = node_id;
    state = prompting;
    capture_active = false;
    captured = [];
    pre_roll = [];
    speech_started = none;
    last_speech = none;
    barged = false;
    barge_armed = false;
    barge_ch = none;
  }

  pub set_state : Session A → State → Session A
  set_state s st = record s { state = st }

  pub arm_barge_in : Session A → Session A
  arm_barge_in s = record s { barge_ch = some 0; barge_armed = true; barged = false }

  -- The new session, and whether the user barged in.
  pub disarm_barge_in : Session A → Session A × Bool
  disarm_barge_in s = (record s { barge_armed = false; barge_ch = none }, s.barged)

  pub start_capture : Session A → Session A
  start_capture s = record s {
    capture_active = true;
    captured = [];
    pre_roll = [];
    speech_started = none;
    last_speech = none;
  }

  pub stop_capture : Session A → Session A × List A
  stop_capture s = (record s { capture_active = false }, s.captured)

  pub captured_count : Session A → ℕ
  captured_count s = length s.captured

  pub speech_activity : Session A → Option ℕ × Option ℕ
  speech_activity s = (s.speech_started, s.last_speech)

  -- `s.bargeCh <- struct{}{}` on a channel with room for one.
  pub signal : Session A → Fed A
  signal s = elim s.barge_ch [
    | none ↦ blocked
    | some n ↦ if ltb n 1 then fed (record s { barge_ch = some (suc n) }) else blocked
  ]

  -- The first part of FeedPCM: the barge-in.
  pub barge_in : Session A → Bool → Fed A
  unfolding signal
  barge_in s speech =
      if speech && (s.barge_armed && not s.barged)
      then signal
          (record s { barged = true; capture_active = true; captured = []; state = listening })
      else fed s

  -- The onset of speech takes the pre-roll over, and every speech moves the time of the last.
  pub mark_speech : Session A → ℕ → Session A
  mark_speech s now = elim s.speech_started [
    | none ↦ record s {
      speech_started = some now;
      captured = s.captured ++ s.pre_roll;
      pre_roll = [];
      last_speech = some now;
    }
    | some _ ↦ record s { last_speech = some now }
  ]

  -- Before the onset samples go to the pre-roll, of which the newest quarter of a second is kept.
  pub keep_pre_roll : Session A → List A → Session A
  keep_pre_roll s samples =
      let grown = s.pre_roll ++ samples in
      record s {
        pre_roll =
            if ltb pre_roll_limit (length grown)
            then drop (length grown - pre_roll_limit) grown
            else grown;
      }

  -- After it they go to the capture buffer, up to its limit. `samples[:remaining]` panics where
  -- `remaining` is negative.
  pub keep_captured : Session A → List A → Fed A
  keep_captured s samples =
      if ltb capture_limit (length s.captured)
      then panicked
      else fed
          (record s { captured = s.captured ++ take (capture_limit - length s.captured) samples })

  pub accumulate : Session A → List A → Bool → ℕ → Fed A
  unfolding mark_speech keep_pre_roll keep_captured
  accumulate s samples speech now =
      let marked = if speech then mark_speech s now else s in
      elim marked.speech_started [
        | none ↦ fed (keep_pre_roll marked samples)
        | some _ ↦ keep_captured marked samples
      ]

  capture : Fed A → List A → Bool → ℕ → Fed A
  capture (fed s) samples speech now =
      if s.capture_active then accumulate s samples speech now else fed s
  capture blocked samples speech now = blocked
  capture panicked samples speech now = panicked

  pub feed_pcm : Session A → List A → Bool → ℕ → Fed A
  unfolding capture
  feed_pcm s [] speech now = fed s
  feed_pcm s (a ∷ samples) speech now = capture (barge_in s speech) (a ∷ samples) speech now

  pub feed : Session A → List A → ℕ → Fed A
  feed s samples now = feed_pcm s samples true now

  -- The ask flow receives a signal.
  pub receive : Session A → Session A
  receive s = elim s.barge_ch [ none ↦ s | some n ↦ record s { barge_ch = some (n - 1) } ]
