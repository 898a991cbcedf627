-- ===== src/Node.antt =====
-- internal/node/node.go: the state of a physical node and the dispatcher of its transitions. The
-- sections under queueMutex are the steps. A SetState that finds the queue full waits and holds
-- stateMutex: it is `pending`, and the callers of SetState and GetState wait for it. What callbacks do
-- is left out; `calls` notes the calls of them: which callback, with which old and new state.
pub mod Chain
pub mod Calls
pub mod Told
mod Tests
use gocalis.Common.{
  ℕ, zero, suc, ◌==◌, leb, Bool, true, false, not, ◌&&◌, Option, none, some, List, [], ◌∷◌, ◌++◌,
  if◌then◌else◌, length, map,
}

pub data NodeState : Type 0 where
  idle speaking listening processing challenging : NodeState

abbrev pub state_number : NodeState → ℕ
state_number idle = 0
state_number speaking = 1
state_number listening = 2
state_number processing = 3
state_number challenging = 4

pub record StateTransition : Type 0 where
  pub old_state : NodeState
  pub new_state : NodeState

pub record PhysicalNode : Type 0 where
  pub state : NodeState
  pub change_callbacks : List ℕ
  pub queue : List StateTransition
  pub closed : Bool
  pub done : Bool
  pub pending : Option StateTransition
  pub calls : List (ℕ × NodeState × NodeState)

unfoldable pub new_physical_node : PhysicalNode
new_physical_node = record {
  state = idle;
  change_callbacks = [];
  queue = [];
  closed = false;
  done = false;
  pending = none;
  calls = [];
}

-- `none` waits for stateMutex.
unfoldable pub get_state : PhysicalNode → Option NodeState
get_state n = elim n.pending [ none ↦ some n.state | some t ↦ none ]

-- The wait on a full queue, and the append behind it.
unfoldable pub enqueue : PhysicalNode → StateTransition → PhysicalNode
enqueue n t =
    if leb 64 (length n.queue) && not n.closed
    then record n { pending = some t }
    else if n.closed
    then record n { pending = none }
    else record n { pending = none; queue = n.queue ++ (t ∷ []) }

unfoldable pub change : PhysicalNode → NodeState → PhysicalNode
unfolding enqueue
change n new_state =
    if state_number n.state == state_number new_state
    then n
    else enqueue (record n { state = new_state })
        (record { old_state = n.state; new_state = new_state })

-- A caller that finds stateMutex held is still to come.
unfoldable pub set_state : PhysicalNode → NodeState → PhysicalNode
unfolding change
set_state n new_state = elim n.pending [ none ↦ change n new_state | some t ↦ n ]

-- The pending SetState wakes.
unfoldable pub wake : PhysicalNode → PhysicalNode
unfolding enqueue
wake n = elim n.pending [ none ↦ n | some t ↦ enqueue n t ]

abbrev pub call_each : List ℕ → StateTransition → List (ℕ × NodeState × NodeState)
call_each callbacks t = map (λ c. (c, t.old_state, t.new_state)) callbacks

-- A round of dispatchLoop.
unfoldable pub dispatch : PhysicalNode → PhysicalNode
dispatch n = elim n.queue [
  | [] ↦ if n.closed then record n { done = true } else n
  | t ∷ queue ↦ record n { queue = queue; calls = n.calls ++ call_each n.change_callbacks t }
]

unfoldable pub on_state_changed : PhysicalNode → ℕ → PhysicalNode
on_state_changed n callback = record n { change_callbacks = n.change_callbacks ++ (callback ∷ []) }

-- Close up to its wait for `done`.
unfoldable pub close : PhysicalNode → PhysicalNode
close n = record n { closed = true }

pub data Event : Type 0 where
  sets : NodeState → Event
  wakes dispatches closes : Event
  registers : ℕ → Event

unfoldable pub step : PhysicalNode → Event → PhysicalNode
step n (sets s) = set_state n s
step n wakes = wake n
step n dispatches = dispatch n
step n closes = close n
step n (registers callback) = on_state_changed n callback

unfoldable pub run : PhysicalNode → List Event → PhysicalNode
unfolding step
run n [] = n
run n (e ∷ es) = run (step n e) es

-- The dispatcher's next rounds.
unfoldable pub dispatch_times : ℕ → PhysicalNode → PhysicalNode
dispatch_times zero n = n
dispatch_times (suc rounds) n = dispatch_times rounds (dispatch n)
