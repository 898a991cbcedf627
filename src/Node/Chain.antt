-- ===== src/Node/Chain.antt =====
-- The transitions of a node, in every history of its calls and its dispatcher.
use gocalis.Common.{
  append_assoc, ◌≤◌, ◌<◌, if_cases, if_both, ◌≡◌, ◌≢◌, refl, ap, ◌∙◌, sym, subst, true, false, not,
  ◌&&◌, Option, none, some, List, [], ◌∷◌, ◌++◌, if◌then◌else◌, length, arith, leb, ◌==◌,
  length-append, Option-cases, inl, inr,
}
use gocalis.Node.{
  NodeState, idle, state_number, StateTransition, PhysicalNode, new_physical_node, enqueue, change,
  set_state, wake, call_each, dispatch, on_state_changed, close, Event, sets, wakes, dispatches,
  closes, registers, step, run,
}

-- Each transition begins where the one before it has ended, and changes the state.
unfoldable pub IsChain : NodeState → List StateTransition → NodeState → Type 0
IsChain from [] to = from ≡ to
IsChain from (t ∷ ts) to =
    (from ≡ t.old_state) × (t.old_state ≢ t.new_state) × IsChain t.new_state ts to

IsChain-snoc :
    (from to : NodeState) (ts : List StateTransition) (t : StateTransition)
    → IsChain from ts to
    → to ≡ t.old_state
    → t.old_state ≢ t.new_state
    → IsChain from (ts ++ t ∷ []) t.new_state
unfolding IsChain
IsChain-snoc from to [] t h e d = (h ∙ e, d, refl)
IsChain-snoc from to (x ∷ ts) t h e d = (h.0, h.1, IsChain-snoc x.new_state to ts t h.2 e d)

-- The transition that waits goes on from the last one in the queue.
unfoldable pub Follows : NodeState → Option StateTransition → NodeState → Type 0
Follows last none state = last ≡ state
Follows last (some t) state =
    (last ≡ t.old_state) × (t.old_state ≢ t.new_state) × (t.new_state ≡ state)

-- Behind `heard`, which begins at `from`, the queue goes on.
pub record IsValid (from : NodeState) (heard : List StateTransition) (n : PhysicalNode)
    : Type 0 where
  pub last : NodeState
  pub chain : IsChain from (heard ++ n.queue) last
  pub few : length n.queue ≤ 64
  pub current : n.closed ≡ false → Follows last n.pending n.state

pub new-IsValid : IsValid idle [] new_physical_node
unfolding new_physical_node IsChain Follows
new-IsValid = record { last = idle; chain = refl; few = omega arith; current = λ _. refl }

other_state : (a b : NodeState) → (state_number a == state_number b) ≡ false → a ≢ b
other_state a b h e = ground (arith, ap state_number e)

fits :
    (n : PhysicalNode)
    → (leb 64 (length n.queue) && not n.closed) ≡ false
    → n.closed ≡ false
    → length n.queue < 64
fits n room open_ = ground arith

module _ (from : NodeState) (heard : List StateTransition) where
  enqueue-IsValid :
      (n : PhysicalNode) (last : NodeState) (t : StateTransition)
      → IsChain from (heard ++ n.queue) last
      → length n.queue ≤ 64
      → (n.closed ≡ false → Follows last (some t) n.state)
      → IsValid from heard (enqueue n t)
  unfolding enqueue Follows
  enqueue-IsValid n last t chain few current =
      if_cases (IsValid from heard) (leb 64 (length n.queue) && not n.closed)
        (λ _. record { last = last; chain = chain; few = few; current = current })
        (λ room.
          if_cases (IsValid from heard) n.closed
            (λ shut. record {
              last = last;
              chain = chain;
              few = few;
              current = λ open_. ground arith;
            })
            (λ open_. record {
              last = t.new_state;
              chain =
                  subst (λ ts. IsChain from ts t.new_state) (append_assoc heard n.queue (t ∷ []))
                    (IsChain-snoc from last (heard ++ n.queue) t chain (current open_).0
                      (current open_).1);
              few = omega (arith, length-append n.queue (t ∷ []), fits n room open_);
              current = λ _. (current open_).2;
            }))

  change-IsValid :
      (n : PhysicalNode) (s : NodeState)
      → IsValid from heard n
      → n.pending ≡ none
      → IsValid from heard (change n s)
  unfolding change Follows
  change-IsValid n s v free =
      if_cases (IsValid from heard) (state_number n.state == state_number s) (λ _. v)
        (λ e.
          enqueue-IsValid (record n { state = s }) v.last
            (record { old_state = n.state; new_state = s }) v.chain v.few
            (λ open_. (
              subst (λ p. Follows v.last p n.state) free (v.current open_),
              other_state n.state s e,
              refl,
            )))

set_state-free : (n : PhysicalNode) (s : NodeState) → n.pending ≡ none → set_state n s ≡ change n s
unfolding set_state
set_state-free n s e = ground arith

set_state-held :
    (n : PhysicalNode) (s : NodeState) (t : StateTransition)
    → n.pending ≡ some t
    → set_state n s ≡ n
unfolding set_state
set_state-held n s t e = ground arith

wake-free : (n : PhysicalNode) → n.pending ≡ none → wake n ≡ n
unfolding wake
wake-free n e = ground arith

wake-held : (n : PhysicalNode) (t : StateTransition) → n.pending ≡ some t → wake n ≡ enqueue n t
unfolding wake
wake-held n t e = ground arith

unfoldable pub after_round : PhysicalNode → StateTransition → List StateTransition → PhysicalNode
after_round n t queue = record n {
  queue = queue;
  calls = n.calls ++ call_each n.change_callbacks t;
}

pub dispatch-next :
    (n : PhysicalNode) (t : StateTransition) (queue : List StateTransition)
    → n.queue ≡ t ∷ queue
    → dispatch n ≡ after_round n t queue
unfolding dispatch after_round
dispatch-next n t queue e = ground arith

pub dispatch-last :
    (n : PhysicalNode)
    → n.queue ≡ []
    → dispatch n ≡ (if n.closed then record n { done = true } else n)
unfolding dispatch
dispatch-last n e = ground arith

-- The transitions that the callbacks hear of next.
unfoldable pub hears : List StateTransition → List StateTransition → List StateTransition
hears heard [] = heard
hears heard (t ∷ queue) = heard ++ (t ∷ [])

unfoldable pub heard_behind : List StateTransition → PhysicalNode → Event → List StateTransition
heard_behind heard n dispatches = hears heard n.queue
heard_behind heard n (sets s) = heard
heard_behind heard n wakes = heard
heard_behind heard n closes = heard
heard_behind heard n (registers c) = heard

module _ (from : NodeState) (heard : List StateTransition) where
  IsValid-equal : (n m : PhysicalNode) → n ≡ m → IsValid from heard m → IsValid from heard n
  IsValid-equal n m e v = subst (λ k. IsValid from heard k) (sym e) v

  dispatch_queue :
      (n : PhysicalNode) (queue : List StateTransition)
      → n.queue ≡ queue
      → IsValid from heard n
      → IsValid from (hears heard queue) (dispatch n)
  unfolding after_round hears
  dispatch_queue n [] e v = IsValid-equal (dispatch n) _ (dispatch-last n e) (
      if_both (IsValid from heard) n.closed
        (record { last = v.last; chain = v.chain; few = v.few; current = v.current }) v)
  dispatch_queue n (t ∷ queue) e v =
      subst (λ k. IsValid from (heard ++ (t ∷ [])) k) (sym (dispatch-next n t queue e))
        (record {
          last = v.last;
          chain =
              subst (λ ts. IsChain from ts v.last) (sym (append_assoc heard (t ∷ []) queue))
                (subst (λ q. IsChain from (heard ++ q) v.last) e v.chain);
          few = omega (arith, v.few, ap length e);
          current = v.current;
        })

  pub step-IsValid :
      (n : PhysicalNode) (e : Event)
      → IsValid from heard n
      → IsValid from (heard_behind heard n e) (step n e)
  unfolding step on_state_changed close heard_behind
  step-IsValid n (sets s) v = elim (Option-cases n.pending) [
    | inl e ↦
        IsValid-equal (set_state n s) (change n s) (set_state-free n s e)
          (change-IsValid from heard n s v e)
    | inr (t, e) ↦ IsValid-equal (set_state n s) n (set_state-held n s t e) v
  ]
  step-IsValid n wakes v = elim (Option-cases n.pending) [
    | inl e ↦ IsValid-equal (wake n) n (wake-free n e) v
    | inr (t, e) ↦ IsValid-equal (wake n) (enqueue n t) (wake-held n t e) (
        enqueue-IsValid from heard n v.last t v.chain v.few
          (λ open_. subst (λ p. Follows v.last p n.state) e (v.current open_)))
  ]
  step-IsValid n dispatches v = dispatch_queue n n.queue refl v
  step-IsValid n closes v = record {
    last = v.last;
    chain = v.chain;
    few = v.few;
    current = λ e. ground arith;
  }
  step-IsValid n (registers c) v = record {
    last = v.last;
    chain = v.chain;
    few = v.few;
    current = v.current;
  }

-- Every history of a node leaves it with what has been dispatched and its queue as one chain.
pub run-IsValid :
    (from : NodeState) (heard : List StateTransition) (n : PhysicalNode) (es : List Event)
    → IsValid from heard n
    → (all : List StateTransition) × IsValid from all (run n es)
unfolding run
run-IsValid from heard n [] v = (heard, v)
run-IsValid from heard n (e ∷ es) v =
    run-IsValid from (heard_behind heard n e) (step n e) es (step-IsValid from heard n e v)
