-- ===== src/WorkQueue.antt =====
-- internal/workqueue/queue.go: the bounded priority admission queue in front of the model workers.
-- A method runs under the queue's mutex, so it is one step: it takes the queue and returns the new
-- one with the method's answer. The capacity is a number: a negative one refuses every push, as 0
-- does. A push reads all contexts at one moment.
pub mod Select
pub mod Bounds
pub mod History
pub mod Refine
mod Tests
use gocalis.Common.{
  ℕ, suc, ◌==◌, leb, ltb_ℤ, ℤ, Bool, true, false, ◌&&◌, not, Option, none, some, List, [], ◌∷◌,
  ◌++◌, if◌then◌else◌, length, get_elem?, erase_idx, keep_if, CtxError, Contexts, is_live,
}

pub record Entry (A : Type 0) : Type 0 where
  pub ctx : ℕ
  pub value : A
  pub priority : ℤ

pub record Queue (A : Type 0) : Type 0 where
  pub entries : List (Entry A)
  pub capacity : ℕ
  pub closed : Bool

-- What Push returns: the context's error, ErrClosed, ErrFull.
pub data PushError : Type 0 where
  cancelled : CtxError → PushError
  err_closed err_full : PushError

-- What a call of Pop comes to: it waits on the condition variable, reports a closed queue, or
-- returns a value.
pub data Popped (A : Type 0) : Type 0 where
  waits : Popped A
  stopped : Popped A
  popped : A → Queue A → Popped A

module _ {A : Type 0} where
  unfoldable pub new : ℕ → Queue A
  new capacity = record { entries = []; capacity = capacity; closed = false }

  -- The entries whose context is live, in their order.
  abbrev pub live : Contexts → List (Entry A) → List (Entry A)
  live errs es = keep_if (λ e. is_live errs e.ctx) es

  abbrev pub entry : ℕ → A → ℤ → Entry A
  entry ctx value priority = record { ctx = ctx; value = value; priority = priority }

  -- The part of Push behind the two early returns.
  unfoldable pub admit : Contexts → Queue A → ℕ → A → ℤ → Queue A × Option PushError
  admit errs q ctx value priority =
      let pruned = live errs q.entries in
      if leb q.capacity (length pruned)
      then (record q { entries = pruned }, some err_full)
      else (record q { entries = pruned ++ entry ctx value priority ∷ [] }, none)

  unfoldable pub push : Contexts → Queue A → ℕ → A → ℤ → Queue A × Option PushError
  unfolding admit
  push errs q ctx value priority = elim (errs ctx) [
    | some err ↦ (q, some (cancelled err))
    | none ↦ if q.closed then (q, some err_closed) else admit errs q ctx value priority
  ]

  -- The loop of Pop from index `i`, with the best index so far and its priority.
  unfoldable pub best_loop : List (Entry A) → ℕ → ℕ → ℤ → ℕ
  best_loop [] i best highest = best
  best_loop (e ∷ es) i best highest =
      let better = ltb_ℤ highest e.priority in
      best_loop es (suc i) (if better then i else best) (if better then e.priority else highest)

  unfoldable pub best_index : List (Entry A) → ℕ
  unfolding best_loop
  best_index [] = 0
  best_index (e ∷ es) = best_loop es 1 0 e.priority

  -- The entry at an index and the slice without it.
  unfoldable pub take_at : List (Entry A) → ℕ → Option (Entry A × List (Entry A))
  take_at es i = elim (get_elem? es i) [ some e ↦ some (e, erase_idx es i) | none ↦ none ]

  unfoldable pub pop : Queue A → Popped A
  pop q =
      if length q.entries == 0 && not q.closed
      then waits
      else if q.closed
      then stopped
      else elim (take_at q.entries (best_index q.entries)) [
        | some (e, rest) ↦ popped e.value (record q { entries = rest })
        | none ↦ waits
      ]

  unfoldable pub close : Queue A → Queue A
  close q = record q { closed = true; entries = [] }
