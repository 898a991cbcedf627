-- ===== src/Runtime.antt =====
-- internal/runtime/runtime.go: what a node does with incoming audio and with a wake word. The node's
-- state, whether a wake turn is pending and whether the VAD hears speech are read anew at each call,
-- so they are given with it; the calls that leave the function are effects.
pub mod Segments
pub mod Wake
pub mod Turns
mod Tests
use gocalis.Common.{
  ℕ, ◌==◌, Bool, true, false, not, ◌&&◌, ◌||◌, Option, none, some, List, [], ◌∷◌, ◌++◌,
  if◌then◌else◌,
}
use gocalis.Node.{NodeState, idle, speaking, state_number}

abbrev pub same_state : NodeState → NodeState → Bool
same_state a b = state_number a == state_number b

pub data Effect : Type 0 where
  records : List ℕ → Effect
  resets_vad resets_wake : Effect
  hears_wake : List ℕ → Effect
  hears_vad : List ℕ → Effect
  feeds : List ℕ → Bool → Effect

-- The variables of the callback.
pub record Gate : Type 0 where
  pub previous_state : NodeState
  pub wake_active : Bool

abbrev pub new_gate : Gate
new_gate = record { previous_state = idle; wake_active = false }

-- A call of the audio callback, with what it reads.
pub record Heard : Type 0 where
  pub samples : List ℕ
  pub state : NodeState
  pub wake_pending : Bool
  pub is_speech : Bool

abbrev pub is_empty : List ℕ → Bool
is_empty [] = true
is_empty (x ∷ xs) = false

-- The detector hears the call.
abbrev pub is_for_wake : Heard → Bool
is_for_wake h = same_state h.state idle && not h.wake_pending

-- The gate drops the call.
abbrev pub is_dropped : Bool → Heard → Bool
is_dropped half_duplex h = half_duplex && same_state h.state speaking

abbrev pub hear_wake : Gate → Heard → Gate × List Effect
hear_wake g h =
    if is_for_wake h
    then (
      record g { wake_active = true },
      (if g.wake_active then [] else resets_wake ∷ []) ++ hears_wake h.samples ∷ [],
    )
    else (record g { wake_active = false }, [])

unfoldable pub on_audio : Bool → Gate → Heard → Gate × List Effect
on_audio half_duplex g h =
    let vad_reset : List Effect =
      if same_state h.state g.previous_state then [] else resets_vad ∷ [] in
    let g' = record g { previous_state = h.state } in
    let w = hear_wake g' h in
    if is_empty h.samples
    then (g, records h.samples ∷ [])
    else if is_dropped half_duplex h
    then (g', records h.samples ∷ vad_reset)
    else (
      w.0,
      (records h.samples ∷ vad_reset)
          ++ (w.1 ++ hears_vad h.samples ∷ feeds h.samples h.is_speech ∷ []),
    )

unfoldable pub hear_all : Bool → Gate → List Heard → List Effect
hear_all half_duplex g [] = []
hear_all half_duplex g (h ∷ calls) =
    let r = on_audio half_duplex g h in r.1 ++ hear_all half_duplex r.0 calls
