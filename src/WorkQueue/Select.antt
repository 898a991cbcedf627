-- ===== src/WorkQueue/Select.antt =====
-- Which entry Pop takes: the first of those with the highest priority.
use mathlib.Core.List.{append-nil, append_assoc}
use gocalis.Common.{
  ℕ, suc, ◌+◌, ◌≡◌, refl, sym, ap, ◌∙◌, ◌≤ℤ◌, ◌<ℤ◌, ltb_ℤ, Bool-cases, inl, inr, false, some, List,
  [], ◌∷◌, ◌++◌, length, length-append, All, All-append, All-map, arith,
}
use gocalis.WorkQueue.{Entry, Queue, best_loop, best_index, take_at, pop, popped}

module _ {A : Type 0} where
  -- `es` is `before`, the entry `taken` and `after`; those before have a lower priority, those
  -- after no higher one.
  pub record Splits (es : List (Entry A)) : Type 0 where
    pub before : List (Entry A)
    pub taken : Entry A
    pub after : List (Entry A)
    pub whole : es ≡ before ++ taken ∷ after
    pub lower : All (λ e. e.priority <ℤ taken.priority) before
    pub no_higher : All (λ e. e.priority ≤ℤ taken.priority) after

  pub take_at-middle :
      (xs : List (Entry A)) (e : Entry A) (ys : List (Entry A))
      → take_at (xs ++ e ∷ ys) (length xs) ≡ some (e, xs ++ ys)
  unfolding take_at
  take_at-middle [] e ys = refl
  take_at-middle (x ∷ xs) e ys = ground (arith, take_at-middle xs e ys)

  -- At index `i` the entries read are `pre`, the best one `e`, and `mid`.
  best_loop-Splits :
      (es all pre : List (Entry A)) (e : Entry A) (mid : List (Entry A)) (i : ℕ)
      → all ≡ pre ++ e ∷ (mid ++ es)
      → i ≡ length pre + suc (length mid)
      → All (λ x. x.priority <ℤ e.priority) pre
      → All (λ x. x.priority ≤ℤ e.priority) mid
      → (s : Splits all) × (best_loop es i (length pre) e.priority ≡ length s.before)
  unfolding best_loop
  best_loop-Splits [] all pre e mid i h k hp hm = (
    record {
      before = pre;
      taken = e;
      after = mid;
      whole = h ∙ ap (λ l. pre ++ e ∷ l) (append-nil mid);
      lower = hp;
      no_higher = hm;
    },
    refl,
  )
  best_loop-Splits (x ∷ es) all pre e mid i h k hp hm =
      elim (Bool-cases (ltb_ℤ e.priority x.priority)) [
        | inl better ↦
            let up : e.priority <ℤ x.priority = ground arith in
            let at : i ≡ length (pre ++ e ∷ mid) = omega (arith, length-append pre (e ∷ mid)) in
            rw (better, at)
              (best_loop-Splits es all (pre ++ e ∷ mid) x [] (suc (length (pre ++ e ∷ mid)))
                (h ∙ sym (append_assoc pre (e ∷ mid) (x ∷ es))) (omega arith)
                (All-append _ pre (e ∷ mid) (All-map _ _ (λ y b. omega arith) pre hp)
                  (up, All-map _ _ (λ y b. omega arith) mid hm))
                tt)
        | inr not_better ↦ rw not_better (
            best_loop-Splits es all pre e (mid ++ x ∷ []) (suc i)
              (h ∙ ap (λ l. pre ++ e ∷ l) (sym (append_assoc mid (x ∷ []) es)))
              (omega (arith, k, length-append mid (x ∷ []))) hp
              (All-append _ mid (x ∷ []) hm (ground arith, tt)))
      ]

  best_index-Splits :
      (e : Entry A) (es : List (Entry A))
      → (s : Splits (e ∷ es)) × (best_index (e ∷ es) ≡ length s.before)
  unfolding best_index
  best_index-Splits e es = best_loop-Splits es (e ∷ es) [] e [] 1 refl (omega arith) tt tt

  pub take_at-best :
      (e : Entry A) (es : List (Entry A))
      → (s : Splits (e ∷ es)) × (take_at (e ∷ es) (best_index (e ∷ es))
          ≡ some (s.taken, s.before ++ s.after))
  take_at-best e es =
      let (s, at) = best_index-Splits e es in
      (
        s,
        rw at (
            ap (λ l. take_at l (length s.before)) s.whole
            ∙ take_at-middle s.before s.taken s.after),
      )

  -- Pop of an open queue that holds an entry takes the first entry of the highest priority: those
  -- before it have a lower one, those after it no higher one, and all of them stay in their order.
  pub pop_selects :
      (q : Queue A) (e : Entry A) (es : List (Entry A))
      → q.closed ≡ false
      → q.entries ≡ e ∷ es
      → (s : Splits (e ∷ es)) × (pop q
          ≡ popped s.taken.value (record q { entries = s.before ++ s.after }))
  unfolding pop
  pop_selects q e es open_ h = let (s, taken) = take_at-best e es in (s, ground (arith, taken))
