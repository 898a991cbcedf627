-- ===== src/WorkQueue/Bounds.antt =====
-- What bounds the queue, on every branch of Push and Close.
use gocalis.Common.{
  ℕ, ◌≤◌, ◌<◌, ◌≡◌, refl, ℤ, none, some, true, false, length, length-append, length-erase_idx-le,
  length-keep_if-le, All, All-append, keep_if-All, is_live, Contexts, arith, [], ◌∷◌, ◌++◌, dec_lt,
}
use gocalis.WorkQueue.{
  Queue, popped, err_full, live, entry, admit, push, pop, close, take_at, best_index,
}

-- The queue holds no more than its capacity, and nothing once it is closed.
pub record IsValid {A : Type 0} (q : Queue A) : Type 0 where
  pub bounded : length q.entries ≤ q.capacity
  pub emptied : q.closed ≡ true → q.entries ≡ []

module _ {A : Type 0} where
  admit-IsValid :
      (errs : Contexts) (q : Queue A) (ctx : ℕ) (value : A) (priority : ℤ)
      → q.closed ≡ false
      → IsValid q
      → IsValid (admit errs q ctx value priority).0
  unfolding admit
  admit-IsValid errs q ctx value priority open_ v = ground (
    arith,
    length-keep_if-le (λ e. is_live errs e.ctx) q.entries,
    length-append (live errs q.entries) (entry ctx value priority ∷ []),
  )

  -- Push keeps the queue within its capacity, whatever it answers.
  pub push-IsValid :
      (errs : Contexts) (q : Queue A) (ctx : ℕ) (value : A) (priority : ℤ)
      → IsValid q
      → IsValid (push errs q ctx value priority).0
  unfolding push
  push-IsValid errs q ctx value priority v = ground (arith, admit-IsValid errs q ctx value priority)

  pub pop-IsValid : (q q' : Queue A) (value : A) → IsValid q → pop q ≡ popped value q' → IsValid q'
  unfolding pop take_at
  pop-IsValid q q' value v h = ground (arith, length-erase_idx-le q.entries (best_index q.entries))

  pub close-IsValid : (q : Queue A) → IsValid (close q)
  unfolding close
  close-IsValid q = record { bounded = omega arith; emptied = λ _. refl }

  -- An open queue answers a live submission by its room once the cancelled entries are gone: the
  -- entry is appended exactly if the live entries leave room, and ErrFull keeps only the live ones.
  pub push_open :
      (errs : Contexts) (q : Queue A) (ctx : ℕ) (value : A) (priority : ℤ)
      → errs ctx ≡ none
      → q.closed ≡ false
      → let kept = live errs q.entries in
        let (q', answer) = push errs q ctx value priority in
        (length kept < q.capacity
          → (answer ≡ none) × (q'.entries ≡ kept ++ entry ctx value priority ∷ []))
        × (q.capacity ≤ length kept → (answer ≡ some err_full) × (q'.entries ≡ kept))
  unfolding push admit
  push_open errs q ctx value priority fresh open_ = (λ h. ground arith, λ h. ground arith)

  -- Every entry that a push with a live context leaves in an open queue has a live context.
  pub push-live :
      (errs : Contexts) (q : Queue A) (ctx : ℕ) (value : A) (priority : ℤ)
      → errs ctx ≡ none
      → q.closed ≡ false
      → All (λ e. is_live errs e.ctx ≡ true) (push errs q ctx value priority).0.entries
  push-live errs q ctx value priority fresh open_ =
      elim (dec_lt (length (live errs q.entries)) q.capacity) [
        | yes room ↦
            rw ((push_open errs q ctx value priority fresh open_).0 room).1
              (All-append _ (live errs q.entries) _ pruned (rw (fresh, is_live), tt))
        | no full ↦ rw ((push_open errs q ctx value priority fresh open_).1 (omega arith)).1 pruned
      ]
    where
      pruned : All (λ e. is_live errs e.ctx ≡ true) (live errs q.entries)
      pruned = keep_if-All (λ e. is_live errs e.ctx) q.entries
