-- ===== src/NodeQueue.antt =====
-- internal/brain/queue.go: the turns on one node's audio output. The heap of container/heap is seen
-- through what it promises, that the entry at index 0 is the least by Less: `pq` lists the waiters by
-- Less, since no two have one number. An iteration of acquire's loop runs under the mutex, so it is
-- one step, and a parked waiter may take it at any time. `held` is the turns that have been handed out
-- and not been released; the source keeps it in the release functions, each of which runs once.
pub mod Order
pub mod Turns
mod Tests
use gocalis.Common.{
  ℕ, suc, ◌+◌, ◌==◌, ltb, leb, ltb_ℤ, ℤ, Bool, true, false, not, ◌&&◌, ◌||◌, Option, none, some,
  List, [], ◌∷◌, ◌++◌, if◌then◌else◌, length, CtxError, Contexts,
}

pub record Waiter : Type 0 where
  pub priority : ℤ
  pub seq : ℕ
  pub ctx : ℕ

pub record NodeQueue : Type 0 where
  pub pq : List Waiter
  pub seq : ℕ
  pub busy : Bool
  pub closed : Bool
  pub held : List ℕ

pub data AcquireError : Type 0 where
  node_closed queue_full : AcquireError
  context_error : CtxError → AcquireError

pub new_node_queue : NodeQueue
new_node_queue = record { pq = []; seq = 0; busy = false; closed = false; held = [] }

-- The higher priority first, and the earlier arrival among equals.
abbrev pub less : Waiter → Waiter → Bool
less a b =
    if ltb_ℤ b.priority a.priority
    then true
    else if ltb_ℤ a.priority b.priority
    then false
    else ltb a.seq b.seq

-- heap.Push
pub heap_push : List Waiter → Waiter → List Waiter
heap_push [] w = w ∷ []
heap_push (x ∷ pq) w = if less w x then w ∷ x ∷ pq else x ∷ heap_push pq w

-- heap.Remove at the waiter's index; a waiter that has left the heap is not found.
pub heap_remove : List Waiter → ℕ → List Waiter
heap_remove [] seq = []
heap_remove (x ∷ pq) seq = if x.seq == seq then pq else x ∷ heap_remove pq seq

pub is_waiting : List Waiter → ℕ → Bool
is_waiting [] seq = false
is_waiting (x ∷ pq) seq = if x.seq == seq then true else is_waiting pq seq

-- `q.pq.Len() > 0 && q.pq[0] == w`
abbrev pub is_first : List Waiter → ℕ → Bool
is_first [] seq = false
is_first (x ∷ pq) seq = x.seq == seq

-- acquire up to its loop: the waiter that the caller has become, or the refusal.
pub enter : NodeQueue → ℕ → ℤ → NodeQueue × Option AcquireError
unfolding heap_push
enter q ctx priority =
    if q.closed
    then (q, some node_closed)
    else if leb 32 (length q.pq)
    then (q, some queue_full)
    else (
      record q {
        pq = heap_push q.pq (record { priority = priority; seq = q.seq; ctx = ctx });
        seq = q.seq + 1;
      },
      none,
    )

-- What an iteration of the loop comes to for a waiter.
pub data Turn : Type 0 where
  owns parks : Turn
  leaves : AcquireError → Turn

pub iterate : Contexts → NodeQueue → Waiter → NodeQueue × Turn
unfolding heap_remove
iterate errs q w = elim (errs w.ctx) [
  | some err ↦ (record q { pq = heap_remove q.pq w.seq }, leaves (context_error err))
  | none ↦
      if q.closed
      then (record q { pq = heap_remove q.pq w.seq }, leaves node_closed)
      else if not q.busy && is_first q.pq w.seq
      then (record q { pq = heap_remove q.pq w.seq; busy = true; held = w.seq ∷ q.held }, owns)
      else (q, parks)
]

pub is_held : List ℕ → ℕ → Bool
is_held [] seq = false
is_held (x ∷ held) seq = if x == seq then true else is_held held seq

pub drop_held : List ℕ → ℕ → List ℕ
drop_held [] seq = []
drop_held (x ∷ held) seq = if x == seq then held else x ∷ drop_held held seq

-- The release function of a turn, behind its sync.Once.
pub release : NodeQueue → ℕ → NodeQueue
unfolding is_held drop_held
release q seq =
    if is_held q.held seq then record q { busy = false; held = drop_held q.held seq } else q

pub close : NodeQueue → NodeQueue
close q = record q { closed = true }

pub find_waiter : List Waiter → ℕ → Option Waiter
find_waiter [] seq = none
find_waiter (x ∷ pq) seq = if x.seq == seq then some x else find_waiter pq seq

-- What happens to a queue: a caller enters, a parked waiter wakes, a turn is released, the node
-- closes.
pub data Event : Type 0 where
  enters : ℕ → ℤ → Event
  wakes : Contexts → ℕ → Event
  releases : ℕ → Event
  closes : Event

pub step : NodeQueue → Event → NodeQueue
step q (enters ctx priority) = (enter q ctx priority).0
step q (wakes errs seq) = elim (find_waiter q.pq seq) [ none ↦ q | some w ↦ (iterate errs q w).0 ]
step q (releases seq) = release q seq
step q closes = close q

pub run : NodeQueue → List Event → NodeQueue
run q [] = q
run q (e ∷ es) = run (step q e) es
