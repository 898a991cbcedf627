-- ===== src/Runtime/Wake.antt =====
-- internal/runtime/runtime.go: the callback of a wake word and the turn that it starts. What the ask
-- flow answers is given, and a recording is seen by its sample rate.
use gocalis.Common.{
  ℕ, ◌+◌, ◌-◌, ◌==◌, Bool, true, false, not, ◌&&◌, Option, none, some, List, [], ◌∷◌, ◌++◌,
  if◌then◌else◌,
}
use gocalis.Node.{NodeState, idle}
use gocalis.Ask.{Result, Status, success}
use gocalis.Runtime.{same_state, is_empty}

-- What the node's configuration says of its wake word.
pub record WakeConfig : Type 0 where
  pub wake_responses : List (List ℕ)
  pub auto_ask : Bool
  pub auto_ask_record : Bool

pub record WakeEvent : Type 0 where
  pub keyword : List ℕ
  pub auto_ask : Bool
  pub status : Option Status
  pub text : List ℕ
  pub speaker : List ℕ
  pub recorded_rate : Option ℕ

pub data WakeEffect : Type 0 where
  publishes : WakeEvent → WakeEffect
  asks speaks : List ℕ → WakeEffect

abbrev pub reply_text : List (List ℕ) → List ℕ
reply_text [] = []
reply_text (reply ∷ replies) = reply

abbrev pub is_success : Status → Bool
is_success success = true
is_success _ = false

unfoldable pub asked_event : WakeConfig → List ℕ → Result → WakeEvent
asked_event cfg keyword result =
    let rate = if result.sample_rate == 0 then 16000 else result.sample_rate in
    record {
      keyword = keyword;
      auto_ask = true;
      status = some result.status;
      text = result.transcription;
      speaker = result.speaker;
      recorded_rate =
          if is_success result.status && (cfg.auto_ask_record && not (is_empty result.audio))
          then some rate
          else none;
    }

abbrev pub device_event : List ℕ → WakeEvent
device_event keyword = record {
  keyword = keyword;
  auto_ask = false;
  status = none;
  text = [];
  speaker = [];
  recorded_rate = none;
}

-- The goroutine of a turn.
unfoldable pub wake_turn : WakeConfig → List ℕ → Result → List WakeEffect
wake_turn cfg keyword result =
    let reply = reply_text cfg.wake_responses in
    if cfg.auto_ask
    then asks reply ∷ publishes (asked_event cfg keyword result) ∷ []
    else publishes (device_event keyword) ∷ (if is_empty reply then [] else speaks reply ∷ [])

-- The callback: whether the task group admits it, the node's state, and wakePending. `turns` counts the
-- goroutines whose deferred store is still to come, `over` those behind it.
pub record Wake : Type 0 where
  pub wake_pending : Bool
  pub turns : ℕ
  pub over : ℕ
  pub effects : List WakeEffect

unfoldable pub on_keyword : WakeConfig → Wake → Bool → NodeState → List ℕ → Result → Wake
on_keyword cfg w starts state keyword result =
    let started = record w {
      wake_pending = true;
      turns = w.turns + 1;
      effects = w.effects ++ wake_turn cfg keyword result;
    } in
    if not starts
    then w
    else if not (same_state state idle)
    then w
    else if w.wake_pending
    then w
    else started

unfoldable pub end_turn : Wake → Wake
end_turn w =
    if w.turns == 0
    then w
    else record w { wake_pending = false; turns = w.turns - 1; over = w.over + 1 }

pub data Event : Type 0 where
  keyword_found : Bool → NodeState → List ℕ → Result → Event
  turn_ends : Event

unfoldable pub step : WakeConfig → Wake → Event → Wake
step cfg w (keyword_found starts state keyword result) =
    on_keyword cfg w starts state keyword result
step cfg w turn_ends = end_turn w

unfoldable pub run : WakeConfig → Wake → List Event → Wake
run cfg w [] = w
run cfg w (e ∷ es) = run cfg (step cfg w e) es

unfoldable pub no_wake : Wake
no_wake = record { wake_pending = false; turns = 0; over = 0; effects = [] }
