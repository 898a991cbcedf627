-- ===== src/Node/Calls.antt =====
-- The calls of the callbacks that a step of a node makes.
use gocalis.Common.{
  ℕ, suc, ◌+◌, ◌==◌, ◌≡◌, refl, ap, ◌∙◌, List, [], ◌∷◌, ◌++◌, if◌then◌else◌, arith, Bool-cases, inl,
  inr,
}
use gocalis.Node.{
  NodeState, StateTransition, PhysicalNode, enqueue, change, set_state, wake, call_each, dispatch,
}
use gocalis.Node.Chain.{after_round, dispatch-next, dispatch-last, hears}

-- The transitions that a callback was called with, in order.
unfoldable pub told : ℕ → List (ℕ × NodeState × NodeState) → List StateTransition
told c [] = []
told c ((callback, from, to) ∷ calls) =
    let rest = told c calls in
    if callback == c then record { old_state = from; new_state = to } ∷ rest else rest

unfoldable pub occurrences : ℕ → List ℕ → ℕ
occurrences c [] = 0
occurrences c (callback ∷ callbacks) =
    let rest = occurrences c callbacks in if callback == c then suc rest else rest

unfoldable pub Keeps : PhysicalNode → PhysicalNode → Type 0
Keeps n m = (m.calls ≡ n.calls) × (m.change_callbacks ≡ n.change_callbacks)

module _ (c : ℕ) where
  pub told-append :
      (xs ys : List (ℕ × NodeState × NodeState)) → told c (xs ++ ys) ≡ told c xs ++ told c ys
  unfolding told
  told-append [] ys = refl
  told-append ((callback, from, to) ∷ xs) ys = elim (Bool-cases (callback == c)) [
    | inl e ↦ rw e (ap (λ l. record { old_state = from; new_state = to } ∷ l) (told-append xs ys))
    | inr e ↦ rw e (told-append xs ys)
  ]

  -- Who is not registered is told nothing, who is registered once is told once.
  pub told-absent :
      (callbacks : List ℕ) (t : StateTransition)
      → occurrences c callbacks ≡ 0
      → told c (call_each callbacks t) ≡ []
  unfolding told occurrences
  told-absent [] t h = refl
  told-absent (callback ∷ callbacks) t h = elim (Bool-cases (callback == c)) [
    | inl e ↦ absurd (ground (arith, h, e))
    | inr e ↦ rw e (told-absent callbacks t (ground (arith, h, e)))
  ]

  pub told-once :
      (callbacks : List ℕ) (t : StateTransition)
      → occurrences c callbacks ≡ 1
      → told c (call_each callbacks t) ≡ t ∷ []
  unfolding told occurrences
  told-once [] t h = absurd (ground (arith, h))
  told-once (callback ∷ callbacks) t h = elim (Bool-cases (callback == c)) [
    | inl e ↦ rw e (ap (λ l. t ∷ l) (told-absent callbacks t (ground (arith, h, e))))
    | inr e ↦ rw e (told-once callbacks t (ground (arith, h, e)))
  ]

  pub occurrences-append :
      (xs ys : List ℕ) → occurrences c (xs ++ ys) ≡ occurrences c xs + occurrences c ys
  unfolding occurrences
  occurrences-append [] ys = ground arith
  occurrences-append (x ∷ xs) ys = ground (arith, occurrences-append xs ys)

pub enqueue-Keeps : (n : PhysicalNode) (t : StateTransition) → Keeps n (enqueue n t)
unfolding enqueue Keeps
enqueue-Keeps n t = ground arith

pub set_state-Keeps : (n : PhysicalNode) (s : NodeState) → Keeps n (set_state n s)
unfolding enqueue change set_state Keeps
set_state-Keeps n s = ground arith

pub wake-Keeps : (n : PhysicalNode) → Keeps n (wake n)
unfolding wake enqueue Keeps
wake-Keeps n = ground arith

pub dispatch-calls :
    (c : ℕ) (n : PhysicalNode) (queue : List StateTransition)
    → n.queue ≡ queue
    → occurrences c n.change_callbacks ≡ 1
    → told c (dispatch n).calls ≡ hears (told c n.calls) queue
unfolding after_round hears
dispatch-calls c n [] e once =
    ap (λ k. told c k.calls) (dispatch-last n e)
    ∙ elim (Bool-cases n.closed) [ inl shut ↦ rw shut refl | inr open_ ↦ rw open_ refl ]
dispatch-calls c n (t ∷ queue) e once =
    ap (λ k. told c k.calls) (dispatch-next n t queue e)
    ∙ told-append c n.calls (call_each n.change_callbacks t)
    ∙ ap (λ l. told c n.calls ++ l) (told-once c n.change_callbacks t once)

pub dispatch-silent :
    (c : ℕ) (n : PhysicalNode) (queue : List StateTransition)
    → n.queue ≡ queue
    → occurrences c n.change_callbacks ≡ 0
    → told c n.calls ≡ []
    → told c (dispatch n).calls ≡ []
unfolding after_round
dispatch-silent c n [] e absent h =
    ap (λ k. told c k.calls) (dispatch-last n e)
    ∙ elim (Bool-cases n.closed) [ inl shut ↦ rw shut h | inr open_ ↦ rw open_ h ]
dispatch-silent c n (t ∷ queue) e absent h =
    ap (λ k. told c k.calls) (dispatch-next n t queue e)
    ∙ told-append c n.calls (call_each n.change_callbacks t)
    ∙ ap (λ l. l ++ told c (call_each n.change_callbacks t)) h
    ∙ told-absent c n.change_callbacks t absent

pub dispatch-callbacks : (n : PhysicalNode) → (dispatch n).change_callbacks ≡ n.change_callbacks
unfolding dispatch
dispatch-callbacks n = ground arith
