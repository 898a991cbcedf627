-- ===== src/NodeQueue/Order.antt =====
-- The list of waiters stays in order.
use gocalis.Common.{
  ℕ, ◌+◌, ◌≤◌, ◌<◌, ◌≡◌, true, false, List, [], ◌∷◌, All, All-map, arith, length, ◌==◌, Bool-cases,
  if_both, inl, inr,
}
use gocalis.NodeQueue.{Waiter, less, heap_push, heap_remove}

-- The numbers of the waiters lie below the next one.
unfoldable pub Below : ℕ → List Waiter → Type 0
Below n = All (λ w. w.seq < n)

-- Each waiter goes before all that stand behind it.
unfoldable pub IsOrdered : List Waiter → Type 0
IsOrdered [] = Unit
IsOrdered (w ∷ pq) = All (λ x. less w x ≡ true) pq × IsOrdered pq

less_trans : (a b c : Waiter) → less a b ≡ true → less b c ≡ true → less a c ≡ true
less_trans a b c h k = ground arith

-- Two waiters with different numbers are comparable.
less-total : (a b : Waiter) → a.seq < b.seq → less b a ≡ false → less a b ≡ true
less-total a b h k = ground arith

heap_push-All :
    (P : Waiter → Type 0) (pq : List Waiter) (w : Waiter) → P w → All P pq → All P (heap_push pq w)
unfolding heap_push
heap_push-All P [] w p h = (p, tt)
heap_push-All P (x ∷ pq) w p h = elim (Bool-cases (less w x)) [
  | inl e ↦ rw e (p, h)
  | inr e ↦ rw e (h.0, heap_push-All P pq w p h.1)
]

IsOrdered-push :
    (pq : List Waiter) (w : Waiter)
    → All (λ x. x.seq < w.seq) pq
    → IsOrdered pq
    → IsOrdered (heap_push pq w)
unfolding IsOrdered heap_push
IsOrdered-push [] w b h = (tt, tt)
IsOrdered-push (x ∷ pq) w b h = elim (Bool-cases (less w x)) [
  | inl e ↦ rw e ((e, All-map _ _ (λ y k. less_trans w x y e k) pq h.0), h)
  | inr e ↦ rw e (
    heap_push-All (λ y. less x y ≡ true) pq w (less-total x w b.0 e) h.0,
    IsOrdered-push pq w b.1 h.1,
  )
]

pub heap_push-IsOrdered :
    (pq : List Waiter) (w : Waiter) → Below w.seq pq → IsOrdered pq → IsOrdered (heap_push pq w)
unfolding Below
heap_push-IsOrdered pq w b h = IsOrdered-push pq w b h

pub heap_push-Below :
    (n : ℕ) (pq : List Waiter) (w : Waiter) → w.seq < n → Below n pq → Below n (heap_push pq w)
unfolding Below
heap_push-Below n pq w h k = heap_push-All (λ x. x.seq < n) pq w h k

pub Below-suc : (n : ℕ) (pq : List Waiter) → Below n pq → Below (n + 1) pq
unfolding Below
Below-suc n pq h = All-map _ _ (λ x b. omega arith) pq h

heap_remove-All :
    (P : Waiter → Type 0) (pq : List Waiter) (seq : ℕ) → All P pq → All P (heap_remove pq seq)
unfolding heap_remove
heap_remove-All P [] seq h = tt
heap_remove-All P (x ∷ pq) seq h =
    if_both (All P) (x.seq == seq) h.1 (h.0, heap_remove-All P pq seq h.1)

pub heap_remove-IsOrdered :
    (pq : List Waiter) (seq : ℕ) → IsOrdered pq → IsOrdered (heap_remove pq seq)
unfolding IsOrdered heap_remove
heap_remove-IsOrdered [] seq h = tt
heap_remove-IsOrdered (x ∷ pq) seq h =
    if_both IsOrdered (x.seq == seq) h.1
      (heap_remove-All (λ y. less x y ≡ true) pq seq h.0, heap_remove-IsOrdered pq seq h.1)

pub length-heap_push : (pq : List Waiter) (w : Waiter) → length (heap_push pq w) ≡ length pq + 1
unfolding heap_push
length-heap_push [] w = omega arith
length-heap_push (x ∷ pq) w = ground (arith, length-heap_push pq w)

pub length-heap_remove-le : (pq : List Waiter) (seq : ℕ) → length (heap_remove pq seq) ≤ length pq
unfolding heap_remove
length-heap_remove-le [] seq = omega arith
length-heap_remove-le (x ∷ pq) seq = ground (arith, length-heap_remove-le pq seq)

pub heap_remove-Below :
    (n : ℕ) (pq : List Waiter) (seq : ℕ) → Below n pq → Below n (heap_remove pq seq)
unfolding Below
heap_remove-Below n pq seq h = heap_remove-All (λ x. x.seq < n) pq seq h
