-- ===== src/TaskGroup/Lifetime.antt =====
-- The slots in use are counted exactly and bounded, and Close waits for all of them.
use gocalis.Common.{
  ℕ, zero, suc, ◌+◌, ◌≤◌, ◌≡◌, refl, true, false, some, List, [], ◌∷◌, ◌++◌, Contexts, All, arith,
  if◌then◌else◌,
}
use gocalis.TaskGroup.{
  Group, Slot, Parent, Event, err_closed, starts, finishes, closes, new, reserve, start, finish,
  close, close_returns, task_done, step, run, mark_finished, is_open,
}

-- The slots whose finish function has yet to run.
pub unfinished : List Slot → ℕ
unfinished [] = 0
unfinished (s ∷ ss) = if s.finished then unfinished ss else suc (unfinished ss)

pub record IsValid (g : Group) : Type 0 where
  pub counted : g.active ≡ unfinished g.slots
  pub awaited : g.waiting ≡ unfinished g.slots
  pub bounded : g.active ≤ g.limit
  pub stopped : g.closed ≡ true → g.cancelled ≡ true

unfinished-append :
    (ss : List Slot) (s : Slot) → s.finished ≡ false → unfinished (ss ++ s ∷ []) ≡ unfinished ss + 1
unfolding unfinished
unfinished-append [] s h = ground arith
unfinished-append (x ∷ ss) s h = ground (arith, unfinished-append ss s)

unfinished-mark_finished :
    (ss : List Slot) (i : ℕ)
    → is_open ss i ≡ true
    → unfinished ss ≡ unfinished (mark_finished ss i) + 1
unfolding unfinished
unfinished-mark_finished [] i h = cc
unfinished-mark_finished (s ∷ ss) zero h = ground arith
unfinished-mark_finished (s ∷ ss) (suc i) h = ground (arith, unfinished-mark_finished ss i)

is_open-mark_finished : (ss : List Slot) (i : ℕ) → is_open (mark_finished ss i) i ≡ false
is_open-mark_finished [] i = refl
is_open-mark_finished (s ∷ ss) zero = refl
is_open-mark_finished (s ∷ ss) (suc i) = is_open-mark_finished ss i

start-IsValid :
    (errs : Contexts) (g : Group) (parent : Parent) → IsValid g → IsValid (start errs g parent).0
unfolding start reserve
start-IsValid errs g parent v =
    ground (arith, unfinished-append g.slots (record { parent = parent; finished = false }))

finish-IsValid : (g : Group) (i : ℕ) → IsValid g → IsValid (finish g i)
unfolding finish
finish-IsValid g i v = ground (arith, unfinished-mark_finished g.slots i)

step-IsValid : (g : Group) (e : Event) → IsValid g → IsValid (step g e)
unfolding step close
step-IsValid g (starts errs parent) v = start-IsValid errs g parent v
step-IsValid g (finishes i) v = finish-IsValid g i v
step-IsValid g closes v = record {
  counted = v.counted;
  awaited = v.awaited;
  bounded = v.bounded;
  stopped = λ _. refl;
}

run-IsValid : (g : Group) (es : List Event) → IsValid g → IsValid (run g es)
unfolding run
run-IsValid g [] v = v
run-IsValid g (e ∷ es) v = run-IsValid (step g e) es (step-IsValid g e v)

-- In every history of a new group the active count and the WaitGroup's are the number of slots whose
-- finish function has not run, however often finish functions are called, and within the limit.
pub run-new-IsValid : (ctx limit : ℕ) (es : List Event) → IsValid (run (new ctx limit) es)
run-new-IsValid ctx limit es = run-IsValid (new ctx limit) es (
    unfold new unfinished in
    record { counted = refl; awaited = refl; bounded = omega arith; stopped = λ e. cc })

-- A finish function takes effect once, and then frees exactly one slot.
pub finish_once :
    (g : Group) (i : ℕ)
    → IsValid g
    → (finish (finish g i) i ≡ finish g i)
      × (is_open g.slots i ≡ true → (finish g i).active + 1 ≡ g.active)
      × (is_open g.slots i ≡ false → finish g i ≡ g)
unfolding finish
finish_once g i v = (
  ground (arith, is_open-mark_finished g.slots i),
  λ h. ground (arith, unfinished-mark_finished g.slots i),
  λ h. ground arith,
)

-- What Close has done stays done, and the slots that are not finished do not become more.
abbrev Joining : ℕ → Group → Type 0
Joining n g = (g.closed ≡ true) × (g.cancelled ≡ true) × (unfinished g.slots ≤ n)

step-Joining : (n : ℕ) (g : Group) (e : Event) → Joining n g → Joining n (step g e)
unfolding step start finish close
step-Joining n g (starts errs parent) j = ground arith
step-Joining n g (finishes i) j = ground (arith, unfinished-mark_finished g.slots i)
step-Joining n g closes j = (refl, refl, j.2)

run-Joining : (n : ℕ) (g : Group) (es : List Event) → Joining n g → Joining n (run g es)
unfolding run
run-Joining n g [] j = j
run-Joining n g (e ∷ es) j = run-Joining n (step g e) es (step-Joining n g e j)

-- After Close, whatever happens next, no start succeeds, the unfinished slots do not become more,
-- and every task's context is done.
pub close_cancels :
    (g : Group) (es : List Event) (errs : Contexts)
    → let h = run (close g) es in
      ((parent : Parent) → start errs h parent ≡ (h, some err_closed))
      × (unfinished h.slots ≤ unfinished g.slots)
      × ((s : Slot) → task_done errs h s ≡ true)
unfolding start task_done
close_cancels g es errs =
    let j =
      run-Joining (unfinished g.slots) (close g) es (unfold close in (refl, refl, omega arith)) in
    (λ parent. ground arith, j.2, λ s. ground arith)

slots_done : (ss : List Slot) → unfinished ss ≡ 0 → All (λ s. s.finished ≡ true) ss
unfolding unfinished
slots_done [] h = tt
slots_done (s ∷ ss) h = ground (arith, slots_done ss)

none_left : (ss : List Slot) → All (λ s. s.finished ≡ true) ss → unfinished ss ≡ 0
unfolding unfinished
none_left [] h = refl
none_left (s ∷ ss) h = ground (arith, none_left ss)

-- Close returns exactly when every slot of the group is finished.
pub close_joins :
    (ctx limit : ℕ) (es : List Event)
    → let g = run (new ctx limit) es in
      (close_returns g ≡ true → All (λ s. s.finished ≡ true) g.slots)
      × (All (λ s. s.finished ≡ true) g.slots → close_returns g ≡ true)
unfolding close_returns
close_joins ctx limit es =
    let g = run (new ctx limit) es in
    let v = run-new-IsValid ctx limit es in
    (λ h. slots_done g.slots (ground arith), λ h. ground (arith, none_left g.slots h))
