-- ===== src/Speech/Buffer.antt =====
-- The stream keeps the order of its samples and its bounds, in every history of a producer and a
-- consumer.
use gocalis.Common.{
  ℕ, suc, ◌+◌, ◌-◌, ◌*◌, ◌≤◌, ◌≡◌, refl, ap, ◌∙◌, sym, subst, not, ◌||◌, Option, none, some, List,
  [], ◌∷◌, ◌++◌, map, length, length-append, length-take, length-drop, take, drop, min, arith, ltb,
  leb, ◌==◌, if_cases, if_both, inl, inr, empty_list, append_assoc, append-nil, take-drop, CtxError,
  Option-cases,
}
use gocalis.Speech.{
  StreamError, max_audio_seconds, new_stream, admit, push_round, finish, read_pcm16, Pipe, Event,
  pushes, resumes, consumes, finishes, new_pipe, begin_push, after_admit, after_round, after_read,
  end_read, go_on, consume, step, run,
}

module _ (convert : ℕ → ℕ) where
  -- What was read, what is in the buffer and what is still to be pushed are the counted samples, in
  -- their order; at most two seconds are in the buffer and two minutes are counted.
  pub record IsValid (p : Pipe) : Type 0 where
    pub order : p.delivered ++ (p.stream.buf ++ map convert p.left) ≡ map convert p.counted
    pub buffered : length p.stream.buf ≤ p.stream.sample_rate * 2
    pub bounded : length p.counted ≤ p.stream.sample_rate * max_audio_seconds
    pub tallied : p.stream.total ≡ length p.counted

  map-append : (xs ys : List ℕ) → map convert (xs ++ ys) ≡ map convert xs ++ map convert ys
  map-append [] ys = refl
  map-append (x ∷ xs) ys = ap (λ l. convert x ∷ l) (map-append xs ys)

  length-map : (xs : List ℕ) → length (map convert xs) ≡ length xs
  length-map [] = refl
  length-map (x ∷ xs) = ap (λ n. suc n) (length-map xs)

  new-IsValid : (rate : ℕ) → IsValid (new_pipe rate)
  unfolding new_pipe new_stream
  new-IsValid rate = record {
    order = refl;
    buffered = omega arith;
    bounded = omega arith;
    tallied = refl;
  }

  -- The samples of a push behind what was there.
  order_begin :
      (p : Pipe) (samples : List ℕ)
      → IsValid p
      → p.left ≡ []
      → p.delivered ++ (p.stream.buf ++ map convert samples) ≡ map convert (p.counted ++ samples)
  order_begin p samples v e =
      ap (λ l. p.delivered ++ l)
        (ap (λ l. l ++ map convert samples) (sym (append-nil p.stream.buf)))
      ∙ sym (append_assoc p.delivered (p.stream.buf ++ []) (map convert samples))
      ∙ ap (λ l. l ++ map convert samples)
          (ap (λ l. p.delivered ++ (p.stream.buf ++ map convert l)) (sym e) ∙ v.order)
      ∙ sym (map-append p.counted samples)

  begin_push-IsValid : (p : Pipe) (samples : List ℕ) → IsValid p → IsValid (begin_push p samples)
  unfolding begin_push admit
  begin_push-IsValid p samples v =
      if_cases IsValid (p.aborted || not (length p.left == 0)) (λ _. v)
        (λ idle.
          if_cases (λ r. IsValid (after_admit p samples r))
            (ltb (p.stream.sample_rate * max_audio_seconds) (p.stream.total + length samples))
            (λ _. record {
              order = v.order;
              buffered = v.buffered;
              bounded = v.bounded;
              tallied = v.tallied;
            })
            (λ fits. record {
              order = order_begin p samples v (empty_list p.left (ground (arith, idle)));
              buffered = v.buffered;
              bounded = ground (arith, fits, v.tallied, length-append p.counted samples);
              tallied = omega (arith, v.tallied, length-append p.counted samples);
            }))

  -- A part of the pushed samples moves into the buffer.
  order_move :
      (p : Pipe) (n : ℕ)
      → p.delivered
          ++ ((p.stream.buf ++ map convert (take n p.left)) ++ map convert (drop n p.left))
        ≡ p.delivered ++ (p.stream.buf ++ map convert p.left)
  order_move p n =
      ap (λ l. p.delivered ++ l)
        (append_assoc p.stream.buf (map convert (take n p.left)) (map convert (drop n p.left))
          ∙ ap (λ l. p.stream.buf ++ l)
              (sym (map-append (take n p.left) (drop n p.left))
                ∙ ap (λ l. map convert l) (take-drop n p.left)))

  round-IsValid :
      (p : Pipe) (ctx : Option CtxError)
      → IsValid p
      → IsValid (after_round p (push_round convert ctx p.stream p.left))
  unfolding push_round
  round-IsValid p (some e) v = record {
    order = v.order;
    buffered = v.buffered;
    bounded = v.bounded;
    tallied = v.tallied;
  }
  round-IsValid p none v =
      let n = min (length p.left) (p.stream.sample_rate * 2 - length p.stream.buf) in
      if_cases (λ r. IsValid (after_round p r)) p.stream.done
        (λ _. record {
          order = v.order;
          buffered = v.buffered;
          bounded = v.bounded;
          tallied = v.tallied;
        })
        (λ _.
          if_cases (λ r. IsValid (after_round p r))
            (leb (p.stream.sample_rate * 2) (length p.stream.buf)) (λ _. v)
            (λ room. record {
              order = order_move p n ∙ v.order;
              buffered = omega (
                arith,
                v.buffered,
                length-append p.stream.buf (map convert (take n p.left)),
                length-map (take n p.left),
                length-take n p.left,
              );
              bounded = v.bounded;
              tallied = v.tallied;
            }))

  go_on-IsValid : (p : Pipe) (ctx : Option CtxError) → IsValid p → IsValid (go_on convert p ctx)
  unfolding go_on
  go_on-IsValid p ctx v = if_both IsValid (length p.left == 0) v (round-IsValid p ctx v)

  -- A part of the buffer is delivered.
  order_read :
      (p : Pipe) (n : ℕ) (rest : List ℕ)
      → (p.delivered ++ take n p.stream.buf) ++ (drop n p.stream.buf ++ rest)
        ≡ p.delivered ++ (p.stream.buf ++ rest)
  order_read p n rest =
      append_assoc p.delivered (take n p.stream.buf) (drop n p.stream.buf ++ rest)
      ∙ ap (λ l. p.delivered ++ l)
          (sym (append_assoc (take n p.stream.buf) (drop n p.stream.buf) rest)
            ∙ ap (λ l. l ++ rest) (take-drop n p.stream.buf))

  ended : (p : Pipe) → IsValid p → IsValid (after_read p (end_read p.stream.err))
  ended p v = elim (Option-cases p.stream.err) [
    | inl e ↦ subst (λ x. IsValid (after_read p (end_read x))) (sym e) v
    | inr (x, e) ↦ subst (λ y. IsValid (after_read p (end_read y))) (sym e) v
  ]

  live_read-IsValid : (p : Pipe) (size : ℕ) → IsValid p → IsValid (consume p none size)
  unfolding consume read_pcm16
  live_read-IsValid p size v =
      let n = min size (length p.stream.buf) in
      if_both (λ r. IsValid (after_read p r)) (size == 0) v
        (if_both (λ r. IsValid (after_read p r)) (length p.stream.buf == 0)
          (if_both (λ r. IsValid (after_read p r)) p.stream.done (ended p v) v)
          (record {
            order = order_read p n (map convert p.left) ∙ v.order;
            buffered = omega (arith, v.buffered, length-drop n p.stream.buf);
            bounded = v.bounded;
            tallied = v.tallied;
          }))

  consume-IsValid :
      (p : Pipe) (ctx : Option CtxError) (size : ℕ) → IsValid p → IsValid (consume p ctx size)
  unfolding consume read_pcm16
  consume-IsValid p none size v = live_read-IsValid p size v
  consume-IsValid p (some e) size v = if_both (λ r. IsValid (after_read p r)) (size == 0) v v

  finish-IsValid :
      (p : Pipe) (err : Option StreamError)
      → IsValid p
      → IsValid (record p { stream = finish p.stream err })
  unfolding finish
  finish-IsValid p err v =
      if_both (λ s. IsValid (record p { stream = s })) p.stream.done v
        (record {
          order = v.order;
          buffered = v.buffered;
          bounded = v.bounded;
          tallied = v.tallied;
        })

  step-IsValid : (p : Pipe) (e : Event) → IsValid p → IsValid (step convert p e)
  unfolding step
  step-IsValid p (pushes samples) v = begin_push-IsValid p samples v
  step-IsValid p (resumes ctx) v = if_both IsValid p.aborted v (go_on-IsValid p ctx v)
  step-IsValid p (consumes ctx size) v = consume-IsValid p ctx size v
  step-IsValid p (finishes err) v = finish-IsValid p err v

  run-IsValid : (p : Pipe) (es : List Event) → IsValid p → IsValid (run convert p es)
  unfolding run
  run-IsValid p [] v = v
  run-IsValid p (e ∷ es) v = run-IsValid (step convert p e) es (step-IsValid p e v)

  -- In every history of a stream's producer and consumer, with waits, cancellations and ends at any
  -- point, what was read, the buffer and what is still to be pushed are the counted samples in their
  -- order, converted; the buffer holds at most two seconds and two minutes are counted at most.
  pub pipe_keeps_order : (rate : ℕ) (es : List Event) → IsValid (run convert (new_pipe rate) es)
  pipe_keeps_order rate es = run-IsValid (new_pipe rate) es (new-IsValid rate)
