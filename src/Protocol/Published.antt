-- ===== src/Protocol/Published.antt =====
-- What an execution publishes.
use gocalis.Common.{ℕ, ◌+◌, ◌≡◌, Bool, true, false, List, [], ◌∷◌, if◌then◌else◌, arith}
use gocalis.Protocol.{
  Request, Effect, publishes, Callees, execute, dispatch, execute_tts, execute_asr,
  execute_speaker_id, execute_ask, execute_play,
}

abbrev pub is_publication : Effect → Bool
is_publication (publishes node r) = true
is_publication _ = false

abbrev pub publications : List Effect → ℕ
publications [] = 0
publications (e ∷ es) = (if is_publication e then 1 else 0) + publications es

module _ (c : Callees) (r : Request) where
  tts-once : publications (execute_tts c r) ≡ 1
  unfolding execute_tts
  tts-once = ground arith

  asr-once : publications (execute_asr c r) ≡ 1
  unfolding execute_asr
  asr-once = ground arith

  speaker_id-once : publications (execute_speaker_id c r) ≡ 1
  unfolding execute_speaker_id
  speaker_id-once = ground arith

  ask-once : publications (execute_ask c r) ≡ 1
  unfolding execute_ask
  ask-once = ground arith

  play-once : publications (execute_play c r) ≡ 1
  unfolding execute_play
  play-once = ground arith

  dispatch-once : publications (dispatch c r) ≡ 1
  unfolding dispatch
  dispatch-once = ground (arith, tts-once, asr-once, speaker_id-once, ask-once, play-once)

-- Every request that is executed is answered by exactly one event, whether it is refused, its context
-- is done, a callee fails or it completes.
pub execute_answers : (c : Callees) (r : Request) → publications (execute c r) ≡ 1
unfolding execute
execute_answers c r = ground (arith, dispatch-once c r)
