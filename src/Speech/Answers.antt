-- ===== src/Speech/Answers.antt =====
-- Each job is answered at most once, and a recording never outgrows its limit.
use gocalis.Common.{
  take_all, concat, ℕ, zero, suc, ◌+◌, ◌-◌, ◌≤◌, ◌≡◌, refl, ap, ◌∙◌, sym, subst, ℤ, Bool, not, ◌&&◌,
  Option, none, some, List, [], ◌∷◌, ◌++◌, if◌then◌else◌, length, length-take, take, keep_if,
  erase_idx, get_elem?, arith, ltb, ◌==◌, CtxError, Contexts, is_live, Option-cases, if_both, inl,
  inr, append_assoc, append-nil,
}
use gocalis.WorkQueue.{
  Queue, Entry, PushError, Popped, waits, stopped, popped, push, pop, admit, take_at, best_index,
  entry,
}
use gocalis.WorkQueue as Work
use gocalis.Speech.Jobs.{
  Engine, Outcome, new_engine, submit, after_pop, work, cancel, close_queue, Event, submits, works,
  cancels, closes_queue, step, run, accept_audio, accept_all,
}

-- How often a job stands in the queue, and how often it has been answered.
queued : ℕ → List (Entry ℕ) → ℕ
queued job [] = 0
queued job (e ∷ es) = (if e.value == job then 1 else 0) + queued job es

pub answered : ℕ → List (ℕ × Outcome) → ℕ
answered job [] = 0
answered job (a ∷ answers) = (if a.0 == job then 1 else 0) + answered job answers

queued-keep_if-le :
    (job : ℕ) (p : Entry ℕ → Bool) (es : List (Entry ℕ)) → queued job (keep_if p es) ≤ queued job es
unfolding queued
queued-keep_if-le job p [] = omega arith
queued-keep_if-le job p (e ∷ es) = ground (arith, queued-keep_if-le job p es)

queued-append :
    (job : ℕ) (es fs : List (Entry ℕ)) → queued job (es ++ fs) ≡ queued job es + queued job fs
unfolding queued
queued-append job [] fs = omega arith
queued-append job (e ∷ es) fs = omega (arith, queued-append job es fs)

queued-push :
    (job : ℕ) (errs : Contexts) (q : Queue ℕ) (ctx v : ℕ) (priority : ℤ)
    → queued job (push errs q ctx v priority).0.entries
      ≤ queued job q.entries + (if v == job then 1 else 0)
unfolding push admit queued
queued-push job errs q ctx v priority = ground (
  arith,
  queued-append job (keep_if (λ (e : Entry ℕ). is_live errs e.ctx) q.entries)
      (entry ctx v priority ∷ []),
  queued-keep_if-le job (λ (e : Entry ℕ). is_live errs e.ctx) q.entries,
)

queued-erase :
    (job : ℕ) (es : List (Entry ℕ)) (i : ℕ) (e : Entry ℕ)
    → get_elem? es i ≡ some e
    → queued job es ≡ (if e.value == job then 1 else 0) + queued job (erase_idx es i)
unfolding queued
queued-erase job [] i e h = absurd (ground (arith, h))
queued-erase job (x ∷ es) zero e h = ground (arith, h)
queued-erase job (x ∷ es) (suc i) e h = omega (arith, queued-erase job es i e h)

module _ (job : ℕ) where
  record IsOnce (e : Engine) : Type 0 where
    once : queued job e.pq.entries + answered job e.answers ≤ (if ltb job e.next then 1 else 0)

  -- What a take gives: the entry at the index and the others.
  take_at-queued :
      (es : List (Entry ℕ)) (i : ℕ) (x : Entry ℕ) (rest : List (Entry ℕ))
      → take_at es i ≡ some (x, rest)
      → queued job es ≡ (if x.value == job then 1 else 0) + queued job rest
  unfolding take_at
  take_at-queued es i x rest h = elim (Option-cases (get_elem? es i)) [
    | inl e ↦ absurd (ground (arith, h, e))
    | inr (y, e) ↦ ground (arith, h, e, queued-erase job es i y e)
  ]

  -- The entry that was taken is answered, or left as it is.
  taken-IsOnce :
      (e : Engine) (ctx : Option CtxError) (result : Outcome) (x : Entry ℕ) (rest : List (Entry ℕ))
      → IsOnce e
      → queued job e.pq.entries ≡ (if x.value == job then 1 else 0) + queued job rest
      → IsOnce (after_pop e ctx result (popped x.value (record (e.pq) { entries = rest })))
  unfolding answered
  taken-IsOnce e (some c) result x rest v h = record { once = omega (arith, v.once, h) }
  taken-IsOnce e none result x rest v h =
      if_both IsOnce e.cancelled (record { once = omega (arith, v.once, h) })
        (record { once = omega (arith, v.once, h) })

  popped-IsOnce :
      (e : Engine) (ctx : Option CtxError) (result : Outcome)
      → IsOnce e
      → IsOnce (after_pop e ctx result (pop e.pq))
  unfolding pop
  popped-IsOnce e ctx result v =
      let Q : Popped ℕ → Type 0 = λ r. IsOnce (after_pop e ctx result r) in
      if_both Q (length e.pq.entries == 0 && not e.pq.closed) v (
        if_both Q e.pq.closed (record { once = v.once })
          (elim (Option-cases (take_at e.pq.entries (best_index e.pq.entries))) [
            | inl h ↦
                subst
                  (λ o. Q (elim o [
                    | some (y, rest) ↦ popped y.value (record (e.pq) { entries = rest })
                    | none ↦ waits
                  ]))
                  (sym h) v
            | inr ((y, rest), h) ↦
                subst
                  (λ o. Q (elim o [
                    | some (z, others) ↦ popped z.value (record (e.pq) { entries = others })
                    | none ↦ waits
                  ]))
                  (sym h)
                  (taken-IsOnce e ctx result y rest v
                    (take_at-queued e.pq.entries (best_index e.pq.entries) y rest h))
          ]))

  step-IsOnce : (e : Engine) (x : Event) → IsOnce e → IsOnce (step e x)
  unfolding step submit cancel close_queue Work.close queued work
  step-IsOnce e (submits errs ctx priority) v =
      ground (arith, queued-push job errs e.pq ctx e.next priority)
  step-IsOnce e (works ctx result) v = if_both IsOnce e.worker_done v (popped-IsOnce e ctx result v)
  step-IsOnce e cancels v = record { once = v.once }
  step-IsOnce e closes_queue v = ground arith

  run-IsOnce : (e : Engine) (es : List Event) → IsOnce e → IsOnce (run e es)
  unfolding run
  run-IsOnce e [] v = v
  run-IsOnce e (x ∷ es) v = run-IsOnce (step e x) es (step-IsOnce e x v)

-- In every history of callers, worker rounds and a close, the one worker answers a job at most once,
-- so that a send on the job's channel of one place never blocks the worker.
pub answers_once : (job : ℕ) (es : List Event) → answered job (run new_engine es).answers ≤ 1
unfolding new_engine Work.new queued answered
answers_once job es =
    let v = run-IsOnce job new_engine es (record { once = omega arith }) in ground (arith, v.once)

module _ {A : Type 0} where
  take-accept :
      (limit : ℕ) (samples more : List A)
      → length samples ≤ limit
      → accept_audio limit samples more ≡ take limit (samples ++ more)
  take-accept limit [] more h = ap (λ n. take n more) (omega arith)
  take-accept zero (x ∷ xs) more h = absurd (omega (arith, h))
  take-accept (suc limit) (x ∷ xs) more h =
      let e : suc limit - suc (length xs) ≡ limit - length xs = omega arith in
      ap (λ n. x ∷ (xs ++ take n more)) e
      ∙ ap (λ l. x ∷ l) (take-accept limit xs more (omega (arith, h)))

  take-take :
      (limit : ℕ) (xs ys : List A) → take limit (take limit xs ++ ys) ≡ take limit (xs ++ ys)
  take-take zero xs ys = refl
  take-take (suc limit) [] ys = refl
  take-take (suc limit) (x ∷ xs) ys = ap (λ l. x ∷ l) (take-take limit xs ys)

  -- A recording that is fed in chunks of any size keeps the first samples up to its limit, and drops
  -- those behind it.
  pub accept_all-first :
      (limit : ℕ) (samples : List A) (chunks : List (List A))
      → length samples ≤ limit
      → accept_all limit samples chunks ≡ take limit (samples ++ concat chunks)
  unfolding accept_all
  accept_all-first limit samples [] h =
      sym (take_all limit samples h) ∙ ap (λ l. take limit l) (sym (append-nil samples))
  accept_all-first limit samples (more ∷ rest) h =
      ap (λ l. accept_all limit l rest) (take-accept limit samples more h)
      ∙ accept_all-first limit (take limit (samples ++ more)) rest
          (omega (arith, length-take limit (samples ++ more)))
      ∙ take-take limit (samples ++ more) (concat rest)
      ∙ ap (λ l. take limit l) (append_assoc samples more (concat rest))
