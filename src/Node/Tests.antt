-- ===== src/Node/Tests.antt =====
-- A short history of a node, and the theorem at it.
use gocalis.Common.{◌≡◌, refl, List, [], ◌∷◌, some, length}
use gocalis.Node.{
  idle, speaking, processing, PhysicalNode, new_physical_node, Event, sets, dispatches, registers,
  run, step, set_state, change, enqueue, dispatch, on_state_changed, get_state,
}
use gocalis.Node.Chain.{IsValid}
use gocalis.Node.Calls.{told}
use gocalis.Node.Told.{registrations, front, history-IsChain}

abbrev before : List Event
before = registers 1 ∷ sets processing ∷ sets processing ∷ sets speaking ∷ dispatches ∷ []

abbrev after : List Event
after = sets idle ∷ dispatches ∷ []

abbrev joined : PhysicalNode
joined = run new_physical_node before

abbrev left : PhysicalNode
left = run joined (registers 2 ∷ after)

-- A state that is set twice makes one transition. The first callback is told two transitions, the second
-- one; one is queued.
both_told :
    (told 1 left.calls
      ≡ record { old_state = idle; new_state = processing }
        ∷ record { old_state = processing; new_state = speaking }
        ∷ [])
    × (told 2 left.calls ≡ record { old_state = processing; new_state = speaking } ∷ [])
    × (length left.queue ≡ 1)
    × (get_state left ≡ some idle)
unfolding run step set_state change enqueue dispatch on_state_changed new_physical_node get_state
    told
both_told = (refl, refl, refl, refl)

history-IsChain_example : IsValid (front joined) (told 2 left.calls) left
unfolding registrations
history-IsChain_example = history-IsChain 2 before after refl refl
