-- ===== src/WorkQueue/History.antt =====
-- Histories of calls on one queue, each complete before the next begins.
use gocalis.Common.{ℕ, ◌≡◌, refl, ℤ, none, some, true, Contexts, arith, List, [], ◌∷◌}
use gocalis.WorkQueue.{
  Queue, Popped, waits, stopped, popped, err_closed, new, push, pop, close, take_at,
}
use gocalis.WorkQueue.Bounds.{IsValid, push-IsValid, pop-IsValid, close-IsValid}

pub data Call (A : Type 0) : Type 0 where
  pushes : Contexts → ℕ → A → ℤ → Call A
  pops : Call A
  closes : Call A

module _ {A : Type 0} where
  after_pop : Queue A → Popped A → Queue A
  after_pop q waits = q
  after_pop q stopped = q
  after_pop q (popped value q') = q'

  pub step : Queue A → Call A → Queue A
  unfolding after_pop
  step q (pushes errs ctx value priority) = (push errs q ctx value priority).0
  step q pops = after_pop q (pop q)
  step q closes = close q

  pub run : Queue A → List (Call A) → Queue A
  unfolding step
  run q [] = q
  run q (c ∷ cs) = run (step q c) cs

  after_pop-IsValid : (q : Queue A) (r : Popped A) → pop q ≡ r → IsValid q → IsValid (after_pop q r)
  unfolding after_pop
  after_pop-IsValid q waits e v = v
  after_pop-IsValid q stopped e v = v
  after_pop-IsValid q (popped value q') e v = pop-IsValid q q' value v e

  step-IsValid : (q : Queue A) (c : Call A) → IsValid q → IsValid (step q c)
  unfolding step
  step-IsValid q (pushes errs ctx value priority) v = push-IsValid errs q ctx value priority v
  step-IsValid q pops v = after_pop-IsValid q (pop q) refl v
  step-IsValid q closes v = close-IsValid q

  run-IsValid : (q : Queue A) (cs : List (Call A)) → IsValid q → IsValid (run q cs)
  unfolding run
  run-IsValid q [] v = v
  run-IsValid q (c ∷ cs) v = run-IsValid (step q c) cs (step-IsValid q c v)

  new-IsValid : (capacity : ℕ) → IsValid {A = A} (new capacity)
  unfolding new
  new-IsValid capacity = record { bounded = omega arith; emptied = λ e. cc }

  -- Whatever calls are made on a new queue, it never holds more than its capacity, and holds nothing
  -- once it is closed.
  pub history-IsValid : (capacity : ℕ) (cs : List (Call A)) → IsValid (run (new capacity) cs)
  history-IsValid capacity cs = run-IsValid (new capacity) cs (new-IsValid capacity)

  step-closed : (q : Queue A) (c : Call A) → q.closed ≡ true → (step q c).closed ≡ true
  unfolding step push pop close after_pop take_at
  step-closed q (pushes errs ctx value priority) h = ground arith
  step-closed q pops h = ground arith
  step-closed q closes h = refl

  run-closed : (q : Queue A) (cs : List (Call A)) → q.closed ≡ true → (run q cs).closed ≡ true
  unfolding run
  run-closed q [] h = h
  run-closed q (c ∷ cs) h = run-closed (step q c) cs (step-closed q c h)

  -- Close is final: after any further calls Pop reports a closed queue at once, and a push with a
  -- live context is refused with ErrClosed and changes nothing.
  pub close_final :
      (q : Queue A) (cs : List (Call A))
      → let p = run (close q) cs in
        (pop p ≡ stopped)
        × ((errs : Contexts) (ctx : ℕ) (value : A) (priority : ℤ)
            → errs ctx ≡ none
            → push errs p ctx value priority ≡ (p, some err_closed))
  unfolding pop push
  close_final q cs =
      let shut : (run (close q) cs).closed ≡ true =
        run-closed (close q) cs (unfold close in refl) in
      (ground arith, λ errs ctx value priority fresh. ground arith)
