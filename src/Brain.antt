-- ===== src/Brain.antt =====
-- internal/brain/brain.go: what the brain's calls do to a node, as lists of effects with the error
-- that they return. What the rest of the program answers is the record Handle, one for each node; text
-- is blank if strings.TrimSpace leaves nothing of it.
pub mod Settled
mod Tests
use gocalis.Common.{
  ℕ, ◌*◌, ◌==◌, ltb, Bool, true, false, not, ◌&&◌, ◌||◌, Option, none, some, List, [], ◌∷◌, ◌++◌,
  if◌then◌else◌, length,
}
use gocalis.Node.{NodeState, idle, speaking, processing}

pub data Effect : Type 0 where
  acquires releases synthesizes : Effect
  sets_state : NodeState → Effect
  -- with or without the node's gain
  plays streams : Bool → Effect

pub data BrainError : Type 0 where
  not_registered invalid_audio no_nodes invalid_rate : BrainError
  acquire_failed context_done synthesis_failed stream_failed play_failed transport_failed :
      ℕ → BrainError

-- What a node's queue and its audio answer to a turn, what the synthesis and the context answer, and
-- whether the node's output gain is not 0.
pub record Handle : Type 0 where
  pub acquired : Option ℕ
  pub has_gain : Bool
  pub synthesis : Option ℕ
  pub streamed : Option ℕ
  pub played : Option ℕ
  pub context_err : Option ℕ

abbrev pub Outcome : Type 0
Outcome = List Effect × Option BrainError

abbrev pub max_audio_seconds : ℕ
max_audio_seconds = 120

-- speakToHandle
unfoldable pub speak_to_handle : Handle → Bool → Outcome
speak_to_handle h is_blank = if is_blank then ([], none) else elim h.synthesis [
  | some e ↦ (sets_state processing ∷ synthesizes ∷ sets_state idle ∷ [], some (synthesis_failed e))
  | none ↦ (
    sets_state processing
        ∷ synthesizes
        ∷ sets_state speaking
        ∷ streams h.has_gain
        ∷ sets_state idle
        ∷ [],
    elim h.streamed [ none ↦ none | some e ↦ some (stream_failed e) ],
  )
]

-- playSamplesToHandle
unfoldable pub play_samples_to_handle : Handle → List ℕ → Outcome
play_samples_to_handle h samples = if length samples == 0 then ([], none) else (
  sets_state processing ∷ sets_state speaking ∷ plays h.has_gain ∷ sets_state idle ∷ [],
  elim h.played [ none ↦ none | some e ↦ some (play_failed e) ],
)

-- A turn of the node's queue around a body, whose release is deferred.
unfoldable pub with_turn : Handle → Outcome → Outcome
with_turn h body = elim h.acquired [
  | some e ↦ ([], some (acquire_failed e))
  | none ↦ (acquires ∷ (body.0 ++ releases ∷ []), body.1)
]

unfoldable pub speak : Option Handle → Bool → Outcome
speak none is_blank = ([], some not_registered)
speak (some h) is_blank = if is_blank then ([], none) else with_turn h (speak_to_handle h is_blank)

abbrev pub is_bad_audio : List ℕ → ℕ → Bool
is_bad_audio samples rate =
    rate == 0 || (ltb 192000 rate || ltb (rate * max_audio_seconds) (length samples))

unfoldable pub play_samples : Option Handle → List ℕ → ℕ → Outcome
play_samples none samples rate = ([], some not_registered)
play_samples (some h) samples rate =
    if is_bad_audio samples rate
    then ([], some invalid_audio)
    else if length samples == 0
    then ([], none)
    else with_turn h (play_samples_to_handle h samples)

-- playAll: one outcome for each node, since no node waits for another. The error is the join of theirs.
unfoldable pub play_all : List Handle → List ℕ → List Outcome
play_all [] samples = []
play_all (h ∷ handles) samples =
    with_turn h (play_samples_to_handle h samples) ∷ play_all handles samples

-- What a broadcast comes to: nothing, its own error, or the outcome of each node.
pub data Broadcast : Type 0 where
  skipped : Broadcast
  refused : BrainError → Broadcast
  sent : List Outcome → Broadcast

unfoldable pub play_samples_all : List Handle → List ℕ → Broadcast
play_samples_all handles samples =
    if length samples == 0
    then skipped
    else if length handles == 0
    then refused no_nodes
    else sent (play_all handles samples)

-- SpeakAll: the text is synthesized once, by Synthesize and readAllSamples, whose answer is given.
pub data Synthesis : Type 0 where
  failed : ℕ → Synthesis
  synthesized : List ℕ → Synthesis

unfoldable pub speak_all : List Handle → Bool → Synthesis → Broadcast
speak_all handles is_blank synthesis =
    if is_blank then skipped else if length handles == 0 then refused no_nodes else elim synthesis [
      | failed e ↦ refused (synthesis_failed e)
      | synthesized samples ↦ sent (play_all handles samples)
    ]

-- Turn.Play and Turn.PlayStream: in a turn that is held, and without a change of state.
unfoldable pub turn_play : Handle → ℕ → Outcome
turn_play h rate = elim h.context_err [
  | some e ↦ ([], some (context_done e))
  | none ↦ if rate == 0 then ([], some invalid_rate) else (
    plays h.has_gain ∷ [],
    elim h.played [ none ↦ none | some e ↦ some (transport_failed e) ],
  )
]

unfoldable pub turn_play_stream : Handle → ℕ → Outcome
turn_play_stream h rate = elim h.context_err [
  | some e ↦ ([], some (context_done e))
  | none ↦ if rate == 0 then ([], some invalid_rate) else (
    streams h.has_gain ∷ [],
    elim h.streamed [ none ↦ none | some e ↦ some (transport_failed e) ],
  )
]
