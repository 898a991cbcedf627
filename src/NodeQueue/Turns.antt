-- ===== src/NodeQueue/Turns.antt =====
-- One turn at a time, in the order of priority and arrival.
use gocalis.Common.{
  ℕ, ◌+◌, ◌≤◌, ◌≡◌, ◌≢◌, refl, ℤ, true, false, none, some, List, [], ◌∷◌, All, arith, length,
  if◌then◌else◌, inl, inr, Contexts, Option-cases, ap, subst, sym, ◌∙◌,
}
use gocalis.NodeQueue.{
  Waiter, NodeQueue, owns, parks, leaves, node_closed, context_error, AcquireError, Event, enters,
  wakes, releases, closes, new_node_queue, less, heap_remove, is_first, enter, iterate, is_held,
  drop_held, release, close, find_waiter, step, run,
}
use gocalis.NodeQueue.Order.{
  IsOrdered, Below, Below-suc, heap_push-IsOrdered, heap_push-Below, heap_remove-Below,
  heap_remove-IsOrdered, length-heap_push, length-heap_remove-le,
}

pub record IsValid (q : NodeQueue) : Type 0 where
  pub ordered : IsOrdered q.pq
  pub below : Below q.seq q.pq
  pub few : length q.pq ≤ 32
  pub owned : q.busy ≡ true → length q.held ≡ 1
  pub free : q.busy ≡ false → q.held ≡ []

enter-IsValid :
    (q : NodeQueue) (ctx : ℕ) (priority : ℤ) → IsValid q → IsValid (enter q ctx priority).0
unfolding enter
enter-IsValid q ctx priority v =
    let w : Waiter = record { priority = priority; seq = q.seq; ctx = ctx } in
    ground (
      arith,
      heap_push-IsOrdered q.pq w v.below v.ordered,
      heap_push-Below (q.seq + 1) q.pq w (omega arith) (Below-suc q.seq q.pq v.below),
      length-heap_push q.pq w,
    )

-- A waiter leaves the heap.
leave : NodeQueue → ℕ → NodeQueue
leave q seq = record q { pq = heap_remove q.pq seq }

leave-IsValid : (q : NodeQueue) (seq : ℕ) → IsValid q → IsValid (leave q seq)
unfolding leave
leave-IsValid q seq v = record {
  ordered = heap_remove-IsOrdered q.pq seq v.ordered;
  below = heap_remove-Below q.seq q.pq seq v.below;
  few = omega (arith, length-heap_remove-le q.pq seq, v.few);
  owned = v.owned;
  free = v.free;
}

iterate-IsValid :
    (errs : Contexts) (q : NodeQueue) (w : Waiter) → IsValid q → IsValid (iterate errs q w).0
unfolding iterate leave
iterate-IsValid errs q w v = ground (arith, leave-IsValid q w.seq v)

drop_held-one :
    (held : List ℕ) (seq : ℕ) → length held ≤ 1 → is_held held seq ≡ true → drop_held held seq ≡ []
unfolding is_held drop_held
drop_held-one [] seq h k = refl
drop_held-one (x ∷ []) seq h k = ground arith
drop_held-one (x ∷ y ∷ held) seq h k = absurd (omega arith)

release-IsValid : (q : NodeQueue) (seq : ℕ) → IsValid q → IsValid (release q seq)
unfolding release is_held drop_held
release-IsValid q seq v = ground (arith, drop_held-one q.held seq)

step-IsValid : (q : NodeQueue) (e : Event) → IsValid q → IsValid (step q e)
unfolding step close
step-IsValid q (enters ctx priority) v = enter-IsValid q ctx priority v
step-IsValid q (wakes errs seq) v = elim (Option-cases (find_waiter q.pq seq)) [
  | inl e ↦ rw (e, step) v
  | inr (w, e) ↦ rw (e, step) (iterate-IsValid errs q w v)
]
step-IsValid q (releases seq) v = release-IsValid q seq v
step-IsValid q closes v = ground arith

run-IsValid : (q : NodeQueue) (es : List Event) → IsValid q → IsValid (run q es)
unfolding run
run-IsValid q [] v = v
run-IsValid q (e ∷ es) v = run-IsValid (step q e) es (step-IsValid q e v)

new_node_queue-IsValid : IsValid new_node_queue
unfolding new_node_queue IsOrdered Below
new_node_queue-IsValid = record {
  ordered = tt;
  below = tt;
  few = omega arith;
  owned = λ e. cc;
  free = λ _. refl;
}

-- In every history of a new queue at most one turn is out, exactly if the queue is busy; the waiters
-- stand by priority and arrival, and there are at most 32.
pub history_exclusive : (es : List Event) → IsValid (run new_node_queue es)
history_exclusive es = run-IsValid new_node_queue es new_node_queue-IsValid

is_first-head :
    (w : Waiter) (pq : List Waiter)
    → is_first pq w.seq ≡ true
    → find_waiter pq w.seq ≡ some w
    → (rest : List Waiter) × (pq ≡ w ∷ rest)
unfolding find_waiter
is_first-head w [] h e = cc
is_first-head w (x ∷ pq) h e = (pq, ground arith)

owns_facts :
    (errs : Contexts) (q : NodeQueue) (w : Waiter)
    → (iterate errs q w).1 ≡ owns
    → (errs w.ctx ≡ none)
      × (q.closed ≡ false)
      × (q.busy ≡ false)
      × (is_first q.pq w.seq ≡ true)
      × ((iterate errs q w).0.pq ≡ heap_remove q.pq w.seq)
unfolding iterate
owns_facts errs q w e = ground arith

heap_remove-head :
    (pq rest : List Waiter) (w : Waiter) → pq ≡ w ∷ rest → heap_remove pq w.seq ≡ rest
unfolding heap_remove
heap_remove-head pq rest w h = ground arith

-- A waiter gets the node only if its context is live and the node is open and free, and then it goes
-- before every waiter that stays.
pub owns_first :
    (errs : Contexts) (q : NodeQueue) (w : Waiter)
    → IsValid q
    → find_waiter q.pq w.seq ≡ some w
    → (iterate errs q w).1 ≡ owns
    → (errs w.ctx ≡ none)
      × (q.closed ≡ false)
      × (q.busy ≡ false)
      × (q.pq ≡ w ∷ (iterate errs q w).0.pq)
      × All (λ x. less w x ≡ true) (iterate errs q w).0.pq
unfolding IsOrdered
owns_first errs q w v found e =
    let (live, open_, idle, first, left) = owns_facts errs q w e in
    let (rest, h) = is_first-head w q.pq first found in
    let stays : (iterate errs q w).0.pq ≡ rest = left ∙ heap_remove-head q.pq rest w h in
    let ordered : IsOrdered (w ∷ rest) = subst (λ (l : List Waiter). IsOrdered l) h v.ordered in
    (
      live,
      open_,
      idle,
      h ∙ ap (λ (l : List Waiter). w ∷ l) (sym stays),
      subst (λ (l : List Waiter). All (λ x. less w x ≡ true) l) (sym stays) ordered.0,
    )

-- On an open node that is free, the first waiter gets the turn when it wakes with a live context, and
-- every other waiter parks.
pub first_progress :
    (errs : Contexts) (q : NodeQueue) (w x : Waiter) (rest : List Waiter)
    → q.pq ≡ w ∷ rest
    → q.closed ≡ false
    → q.busy ≡ false
    → errs w.ctx ≡ none
    → errs x.ctx ≡ none
    → x.seq ≢ w.seq
    → ((iterate errs q w).1 ≡ owns)
      × ((iterate errs q w).0.pq ≡ rest)
      × (iterate errs q x ≡ (q, parks))
unfolding iterate heap_remove
first_progress errs q w x rest h open_ idle live live_x other = ground arith

-- A release frees the node; a second call of the same release function, or one whose turn is not
-- out, does nothing, so that it cannot end another's turn.
pub release_once :
    (q : NodeQueue) (seq : ℕ)
    → IsValid q
    → ((release q seq).busy ≡ (if is_held q.held seq then false else q.busy))
      × (release (release q seq) seq ≡ release q seq)
      × (is_held q.held seq ≡ false → release q seq ≡ q)
unfolding release is_held drop_held
release_once q seq v = ground (arith, drop_held-one q.held seq)

step-closed : (q : NodeQueue) (e : Event) → q.closed ≡ true → (step q e).closed ≡ true
unfolding step enter iterate release close
step-closed q (enters ctx priority) h = ground arith
step-closed q (wakes errs seq) h = ground arith
step-closed q (releases seq) h = ground arith
step-closed q closes h = refl

run-closed : (q : NodeQueue) (es : List Event) → q.closed ≡ true → (run q es).closed ≡ true
unfolding run
run-closed q [] h = h
run-closed q (e ∷ es) h = run-closed (step q e) es (step-closed q e h)

-- Once the node is closed, in every later state nobody is admitted to the queue, and each waiter that
-- wakes leaves it with an error.
pub close_drains :
    (q : NodeQueue) (es : List Event)
    → let p = run (close q) es in
      ((ctx : ℕ) (priority : ℤ) → enter p ctx priority ≡ (p, some node_closed))
      × ((errs : Contexts) (w : Waiter)
          → (err : AcquireError) × (iterate errs p w
              ≡ (record p { pq = heap_remove p.pq w.seq }, leaves err)))
unfolding enter iterate
close_drains q es =
    let shut : (run (close q) es).closed ≡ true = run-closed (close q) es (unfold close in refl) in
    (
      λ ctx priority. ground arith,
      λ errs w.
          (elim (errs w.ctx) [ some err ↦ context_error err | none ↦ node_closed ], ground arith),
    )
