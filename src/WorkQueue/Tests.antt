-- ===== src/WorkQueue/Tests.antt =====
-- Runs of the admission queue, and its theorems at concrete inputs.
use gocalis.Common.{
  ℕ, ◌≡◌, refl, pos, negsuc, none, some, false, List, [], ◌∷◌, canceled, Contexts, ◌==◌,
  if◌then◌else◌, arith,
}
use gocalis.WorkQueue.{
  Entry, Queue, popped, entry, new, live, push, pop, best_index, take_at, cancelled,
}
use gocalis.WorkQueue.History.{Call, pushes, pops, run, history-IsValid}
use gocalis.WorkQueue.Bounds.{IsValid}
use gocalis.WorkQueue.Refine.{service, put_newer, push_refines, pop_refines}

-- Context 9 is cancelled, all others are live.
abbrev errs : Contexts
errs ctx = if ctx == 9 then some canceled else none

-- Four entries, the second and the third with the highest priority; the last one is cancelled.
abbrev loaded : Queue ℕ
loaded = record {
  entries =
      entry 1 10 (pos 1) ∷ entry 2 20 (pos 5) ∷ entry 3 30 (pos 5) ∷ entry 9 40 (negsuc 0) ∷ [];
  capacity = 4;
  closed = false;
}

pop_takes_oldest_best :
    pop loaded
    ≡ popped 20 (record loaded {
      entries = entry 1 10 (pos 1) ∷ entry 3 30 (pos 5) ∷ entry 9 40 (negsuc 0) ∷ [];
    })
unfolding pop take_at best_index
pop_takes_oldest_best = refl

-- The queue is full, but pruning makes room.
push_prunes : push errs loaded 5 50 (pos 0) ≡ (
  record loaded {
    entries =
        entry 1 10 (pos 1) ∷ entry 2 20 (pos 5) ∷ entry 3 30 (pos 5) ∷ entry 5 50 (pos 0) ∷ [];
  },
  none,
)
unfolding push
push_prunes = refl

push_dead_context : push errs loaded 9 50 (pos 0) ≡ (loaded, some (cancelled canceled))
unfolding push
push_dead_context = refl

abbrev history : List (Call ℕ)
history = pushes errs 1 10 (pos 1) ∷ pushes errs 2 20 (pos 5) ∷ pops ∷ pushes errs 3 30 (pos 0) ∷ []

history-IsValid_example : IsValid (run (new 1) history)
history-IsValid_example = history-IsValid 1 history

push_refines_example :
    service (push errs loaded 5 50 (pos 7)).0.entries
    ≡ put_newer (entry 5 50 (pos 7)) (service (live errs loaded.entries))
push_refines_example = push_refines errs loaded 5 50 (pos 7) refl refl (omega arith)

pop_refines_example :
    (first : Entry ℕ) × (q' : Queue ℕ) × (pop loaded ≡ popped first.value q')
    × (service loaded.entries ≡ first ∷ service q'.entries)
pop_refines_example = pop_refines loaded _ _ refl refl
