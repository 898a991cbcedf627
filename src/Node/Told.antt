-- ===== src/Node/Told.antt =====
-- What the callbacks of a node are told, in every history of its calls and its dispatcher.
use gocalis.Common.{
  ℕ, suc, ◌==◌, append-nil, append_assoc, ◌≡◌, refl, ap, ◌∙◌, sym, subst, ◌≤◌, true, false, Option,
  none, some, List, [], ◌∷◌, ◌++◌, if◌then◌else◌, length, arith,
}
use gocalis.Node.{
  NodeState, idle, StateTransition, PhysicalNode, new_physical_node, call_each, dispatch,
  on_state_changed, close, Event, sets, wakes, dispatches, closes, registers, step, run,
  dispatch_times,
}
use gocalis.Node.Chain.{
  IsChain, Follows, IsValid, new-IsValid, after_round, dispatch-next, dispatch-last, heard_behind,
  step-IsValid, run-IsValid,
}
use gocalis.Node.Calls.{
  told, occurrences, Keeps, told-append, told-once, occurrences-append, set_state-Keeps, wake-Keeps,
  dispatch-calls, dispatch-silent, dispatch-callbacks,
}

unfoldable pub registrations : ℕ → List Event → ℕ
registrations c [] = 0
registrations c (registers callback ∷ es) =
    let rest = registrations c es in if callback == c then suc rest else rest
registrations c (sets s ∷ es) = registrations c es
registrations c (wakes ∷ es) = registrations c es
registrations c (dispatches ∷ es) = registrations c es
registrations c (closes ∷ es) = registrations c es

-- The state at which the next transition begins that the dispatcher takes; without any, the node's.
unfoldable pub front : PhysicalNode → NodeState
front n = elim n.queue [
  | t ∷ queue ↦ t.old_state
  | [] ↦ elim n.pending [ some t ↦ t.old_state | none ↦ n.state ]
]

-- A step at which the callback is not registered changes neither whether it is nor, but for a round, what
-- it was told.
module _ (c : ℕ) where
  is_registered_by : Event → ℕ
  is_registered_by e = registrations c (e ∷ [])

  step-occurrences :
      (n : PhysicalNode) (e : Event)
      → is_registered_by e ≡ 0
      → occurrences c (step n e).change_callbacks ≡ occurrences c n.change_callbacks
  unfolding step is_registered_by registrations on_state_changed close Keeps occurrences
  step-occurrences n (sets s) h = ap (occurrences c) (set_state-Keeps n s).1
  step-occurrences n wakes h = ap (occurrences c) (wake-Keeps n).1
  step-occurrences n dispatches h = ap (occurrences c) (dispatch-callbacks n)
  step-occurrences n closes h = refl
  step-occurrences n (registers callback) h =
      ground (arith, h, occurrences-append c n.change_callbacks (callback ∷ []))

  step-told :
      (n : PhysicalNode) (e : Event)
      → occurrences c n.change_callbacks ≡ 1
      → told c (step n e).calls ≡ heard_behind (told c n.calls) n e
  unfolding step heard_behind on_state_changed close Keeps
  step-told n (sets s) once = ap (told c) (set_state-Keeps n s).0
  step-told n wakes once = ap (told c) (wake-Keeps n).0
  step-told n dispatches once = dispatch-calls c n n.queue refl once
  step-told n closes once = refl
  step-told n (registers callback) once = refl

  step-silent :
      (n : PhysicalNode) (e : Event)
      → occurrences c n.change_callbacks ≡ 0
      → told c n.calls ≡ []
      → told c (step n e).calls ≡ []
  unfolding step on_state_changed close Keeps
  step-silent n (sets s) absent h = ap (told c) (set_state-Keeps n s).0 ∙ h
  step-silent n wakes absent h = ap (told c) (wake-Keeps n).0 ∙ h
  step-silent n dispatches absent h = dispatch-silent c n n.queue refl absent h
  step-silent n closes absent h = h
  step-silent n (registers callback) absent h = h

  first-registrations :
      (e : Event) (es : List Event)
      → registrations c (e ∷ es) ≡ 0
      → (is_registered_by e ≡ 0) × (registrations c es ≡ 0)
  unfolding registrations is_registered_by
  first-registrations (sets s) es h = (refl, h)
  first-registrations wakes es h = (refl, h)
  first-registrations dispatches es h = (refl, h)
  first-registrations closes es h = (refl, h)
  first-registrations (registers callback) es h = (ground (arith, h), ground (arith, h))

  run-silent :
      (n : PhysicalNode) (es : List Event)
      → registrations c es ≡ 0
      → occurrences c n.change_callbacks ≡ 0
      → told c n.calls ≡ []
      → (occurrences c (run n es).change_callbacks ≡ 0) × (told c (run n es).calls ≡ [])
  unfolding run
  run-silent n [] h absent quiet = (absent, quiet)
  run-silent n (e ∷ es) h absent quiet =
      let (now, later) = first-registrations e es h in
      run-silent (step n e) es later (step-occurrences n e now ∙ absent)
        (step-silent n e absent quiet)

  run-told :
      (from : NodeState) (n : PhysicalNode) (es : List Event)
      → registrations c es ≡ 0
      → occurrences c n.change_callbacks ≡ 1
      → IsValid from (told c n.calls) n
      → IsValid from (told c (run n es).calls) (run n es)
  unfolding run
  run-told from n [] h once v = v
  run-told from n (e ∷ es) h once v =
      let (now, later) = first-registrations e es h in
      run-told from (step n e) es later (step-occurrences n e now ∙ once) (
        subst (λ heard. IsValid from heard (step n e)) (sym (step-told n e once))
          (step-IsValid from (told c n.calls) n e v))

-- What is left of a chain when its beginning is cut off.
IsChain-behind :
    (from to : NodeState) (heard queue : List StateTransition)
    → IsChain from (heard ++ queue) to
    → (mid : NodeState) × IsChain mid queue to
unfolding IsChain
IsChain-behind from to [] queue h = (from, h)
IsChain-behind from to (t ∷ heard) queue h = IsChain-behind t.new_state to heard queue h.2

queue_front : List StateTransition → Option StateTransition → NodeState → NodeState
queue_front (t ∷ queue) pending state = t.old_state
queue_front [] (some t) state = t.old_state
queue_front [] none state = state

front-queue : (n : PhysicalNode) → front n ≡ queue_front n.queue n.pending n.state
unfolding front queue_front
front-queue n = ground arith

Follows-front :
    (last state : NodeState) (pending : Option StateTransition)
    → Follows last pending state
    → last ≡ queue_front [] pending state
unfolding Follows queue_front
Follows-front last state none h = h
Follows-front last state (some t) h = h.0

front_queue-IsValid :
    (n : PhysicalNode) (queue : List StateTransition) (mid last : NodeState)
    → n.queue ≡ queue
    → IsChain mid queue last
    → length n.queue ≤ 64
    → (n.closed ≡ false → Follows last n.pending n.state)
    → IsValid (queue_front queue n.pending n.state) [] n
unfolding IsChain queue_front
front_queue-IsValid n (t ∷ queue) mid last e h few current = record {
  last = last;
  chain = subst (λ q. IsChain t.old_state q last) (sym e) (refl, h.1, h.2);
  few = few;
  current = current;
}
front_queue-IsValid n [] mid last e h few current =
    let ends : NodeState = queue_front [] n.pending n.state in
    record {
      last = ends;
      chain = subst (λ q. IsChain ends q ends) (sym e) refl;
      few = few;
      current = λ open_.
          subst (λ l. Follows l n.pending n.state)
            (Follows-front last n.state n.pending (current open_)) (current open_);
    }

front-IsValid :
    (from : NodeState) (heard : List StateTransition) (n : PhysicalNode)
    → IsValid from heard n
    → IsValid (front n) [] n
front-IsValid from heard n v =
    let (mid, chain) = IsChain-behind from v.last heard n.queue v.chain in
    subst (λ state. IsValid state [] n) (sym (front-queue n))
      (front_queue-IsValid n n.queue mid v.last refl chain v.few v.current)

-- In every history of a node, a callback that is registered at one point of it, and only there, is
-- called with transitions that together with those still in the queue are one chain. It begins at the
-- state at which the first transition that was not dispatched when the callback was registered begins;
-- without such a transition it is the node's state then. Each transition of the chain begins where the
-- one before it has ended and changes the state. While the node is open, the chain and the pending
-- transition end at the node's state. The queue never holds more than 64.
pub history-IsChain :
    (c : ℕ) (before after : List Event)
    → registrations c before ≡ 0
    → registrations c after ≡ 0
    → let n = run new_physical_node before in
      let m = run n (registers c ∷ after) in IsValid (front n) (told c m.calls) m
unfolding run step on_state_changed new_physical_node occurrences told heard_behind
history-IsChain c before after absent once =
    let n = run new_physical_node before in
    let (heard, v) = run-IsValid idle [] new_physical_node before new-IsValid in
    let (unknown, quiet) = run-silent c new_physical_node before absent refl refl in
    let w = step-IsValid (front n) [] n (registers c) (front-IsValid idle heard n v) in
    run-told c (front n) (step n (registers c)) after once
      (ground (arith, occurrences-append c n.change_callbacks (c ∷ []), unknown))
      (subst (λ told_before. IsValid (front n) told_before (step n (registers c))) (sym quiet) w)

rounds_deliver :
    (c : ℕ) (n : PhysicalNode) (queue : List StateTransition)
    → occurrences c n.change_callbacks ≡ 1
    → n.queue ≡ queue
    → n.closed ≡ true
    → (told c (dispatch_times (suc (length queue)) n).calls ≡ told c n.calls ++ queue)
      × ((dispatch_times (suc (length queue)) n).done ≡ true)
unfolding dispatch_times after_round
rounds_deliver c n [] once e shut =
    let last : dispatch n ≡ record n { done = true } = dispatch-last n e ∙ ground (arith, shut) in
    (ap (λ k. told c k.calls) last ∙ sym (append-nil (told c n.calls)), ap (λ k. k.done) last)
rounds_deliver c n (t ∷ queue) once e shut =
    let next = dispatch-next n t queue e in
    let (heard, ended) = rounds_deliver c (after_round n t queue) queue once refl shut in
    (
      ap (λ k. told c (dispatch_times (suc (length queue)) k).calls) next
          ∙ heard
          ∙ ap (λ l. l ++ queue)
              (told-append c n.calls (call_each n.change_callbacks t)
                ∙ ap (λ l. told c n.calls ++ l) (told-once c n.change_callbacks t once))
          ∙ append_assoc (told c n.calls) (t ∷ []) queue,
      ap (λ k. (dispatch_times (suc (length queue)) k).done) next ∙ ended,
    )

-- A closed node's dispatcher tells a callback that is registered once what stands in the queue, in its
-- order, and is done one round later.
pub close_delivers :
    (c : ℕ) (n : PhysicalNode)
    → occurrences c n.change_callbacks ≡ 1
    → (told c (dispatch_times (suc (length n.queue)) (close n)).calls ≡ told c n.calls ++ n.queue)
      × ((dispatch_times (suc (length n.queue)) (close n)).done ≡ true)
unfolding close
close_delivers c n once = rounds_deliver c (close n) n.queue once refl refl
