-- ===== src/WorkQueue/Refine.antt =====
-- The queue as a sorted list: highest priority first, and among equals the older entry first.
use gocalis.Common.{
  ℕ, ◌≡◌, refl, sym, ap, ◌∙◌, ℤ, none, false, ◌≤ℤ◌, ◌<ℤ◌, ltb_ℤ, leb_ℤ, All, arith, List, [], ◌∷◌,
  ◌++◌, length, ◌<◌, if◌then◌else◌, Contexts,
}
use gocalis.WorkQueue.{Entry, Queue, popped, entry, live, push, pop}
use gocalis.WorkQueue.Select.{pop_selects}
use gocalis.WorkQueue.Bounds.{push_open}

module _ {A : Type 0} where
  -- An older entry goes in front of all that have no higher priority.
  put_older : Entry A → List (Entry A) → List (Entry A)
  put_older e [] = e ∷ []
  put_older e (x ∷ xs) = if leb_ℤ x.priority e.priority then e ∷ x ∷ xs else x ∷ put_older e xs

  -- The order in which the entries are served.
  pub service : List (Entry A) → List (Entry A)
  service [] = []
  service (e ∷ es) = put_older e (service es)

  -- A newer entry goes behind all that have no lower priority.
  pub put_newer : Entry A → List (Entry A) → List (Entry A)
  put_newer e [] = e ∷ []
  put_newer e (x ∷ xs) = if ltb_ℤ x.priority e.priority then e ∷ x ∷ xs else x ∷ put_newer e xs

  put_newer-put_older :
      (a b : Entry A) (xs : List (Entry A))
      → put_newer b (put_older a xs) ≡ put_older a (put_newer b xs)
  unfolding put_newer put_older
  put_newer-put_older a b [] = ground arith
  put_newer-put_older a b (x ∷ xs) = ground (arith, put_newer-put_older a b xs)

  service-append :
      (es : List (Entry A)) (e : Entry A) → service (es ++ e ∷ []) ≡ put_newer e (service es)
  unfolding service
  service-append [] e = unfold put_newer put_older in refl
  service-append (x ∷ es) e =
      ap (put_older x) (service-append es e) ∙ sym (put_newer-put_older x e (service es))

  put_older-All :
      (b : ℤ) (e : Entry A) (es : List (Entry A))
      → e.priority ≤ℤ b
      → All (λ x. x.priority ≤ℤ b) es
      → All (λ x. x.priority ≤ℤ b) (put_older e es)
  unfolding put_older
  put_older-All b e [] h k = (h, tt)
  put_older-All b e (x ∷ es) h k = ground (arith, put_older-All b e es h k.1)

  service-All :
      (b : ℤ) (es : List (Entry A))
      → All (λ x. x.priority ≤ℤ b) es
      → All (λ x. x.priority ≤ℤ b) (service es)
  unfolding service
  service-All b [] h = tt
  service-All b (e ∷ es) h = put_older-All b e (service es) h.0 (service-All b es h.1)

  put_older_first :
      (e : Entry A) (es : List (Entry A))
      → All (λ x. x.priority ≤ℤ e.priority) es
      → put_older e es ≡ e ∷ es
  unfolding put_older
  put_older_first e [] h = refl
  put_older_first e (x ∷ es) h = ground arith

  service-split :
      (before : List (Entry A)) (e : Entry A) (after : List (Entry A))
      → All (λ x. x.priority <ℤ e.priority) before
      → All (λ x. x.priority ≤ℤ e.priority) after
      → service (before ++ e ∷ after) ≡ e ∷ service (before ++ after)
  unfolding service
  service-split [] e after h k = put_older_first e (service after) (service-All e.priority after k)
  service-split (x ∷ before) e after h k =
      ap (put_older x) (service-split before e after h.1 k) ∙ passes
    where
      passes :
          put_older x (e ∷ service (before ++ after)) ≡ e ∷ put_older x (service (before ++ after))
      passes = unfold put_older in ground (arith, h.0)

  -- Push refines insertion by priority behind the equals, after the cancelled entries are gone.
  pub push_refines :
      (errs : Contexts) (q : Queue A) (ctx : ℕ) (value : A) (priority : ℤ)
      → errs ctx ≡ none
      → q.closed ≡ false
      → length (live errs q.entries) < q.capacity
      → service (push errs q ctx value priority).0.entries
        ≡ put_newer (entry ctx value priority) (service (live errs q.entries))
  push_refines errs q ctx value priority fresh open_ room =
      ap service ((push_open errs q ctx value priority fresh open_).0 room).1
      ∙ service-append (live errs q.entries) (entry ctx value priority)

  -- Pop refines taking the head of the service order, and leaves the rest of that order as it was.
  pub pop_refines :
      (q : Queue A) (e : Entry A) (es : List (Entry A))
      → q.closed ≡ false
      → q.entries ≡ e ∷ es
      → (first : Entry A) × (q' : Queue A) × (pop q ≡ popped first.value q')
        × (service q.entries ≡ first ∷ service q'.entries)
  pop_refines q e es open_ h =
      let (s, taken) = pop_selects q e es open_ h in
      (
        s.taken,
        record q { entries = s.before ++ s.after },
        taken,
        ap service (h ∙ s.whole) ∙ service-split s.before s.taken s.after s.lower s.no_higher,
      )
