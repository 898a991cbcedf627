-- ===== src/NodeQueue/Tests.antt =====
-- Runs of a node's queue, and its theorems at concrete inputs.
use gocalis.Common.{◌≡◌, refl, pos, map, none, false, List, [], ◌∷◌, arith, Contexts}
use gocalis.NodeQueue.{
  Waiter, NodeQueue, Event, enters, wakes, new_node_queue, enter, iterate, step, run, find_waiter,
}
use gocalis.NodeQueue.Order.{IsOrdered, Below}
use gocalis.NodeQueue.Turns.{IsValid, history_exclusive}

abbrev no_errs : Contexts
no_errs ctx = none

-- A speak at priority 0 owns the node; a broadcast and a wake-triggered ask wait.
abbrev history : List Event
history = enters 1 (pos 0) ∷ wakes no_errs 0 ∷ enters 2 (pos 0) ∷ enters 3 (pos 10) ∷ []

ask_waits_first : map (λ w. w.seq) (run new_node_queue history).pq ≡ 2 ∷ 1 ∷ []
unfolding run step enter iterate new_node_queue find_waiter
ask_waits_first = refl

history_exclusive_example : IsValid (run new_node_queue history)
history_exclusive_example = history_exclusive history

abbrev speak : Waiter
speak = record { priority = pos 0; seq = 4; ctx = 1 }

abbrev ask : Waiter
ask = record { priority = pos 10; seq = 5; ctx = 2 }

abbrev two_wait : NodeQueue
two_wait = record { pq = ask ∷ speak ∷ []; seq = 6; busy = false; closed = false; held = [] }

two_wait-IsValid : IsValid two_wait
unfolding IsOrdered Below
two_wait-IsValid = record {
  ordered = ((refl, tt), (tt, tt));
  below = omega arith;
  few = omega arith;
  owned = λ e. cc;
  free = λ _. refl;
}
