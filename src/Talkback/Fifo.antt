-- ===== src/Talkback/Fifo.antt =====
-- The frames of an utterance reach the track once and in order, in every history of its goroutines.
use gocalis.Common.{
  ℕ, suc, ◌≤◌, ◌≡◌, refl, ap, ◌∙◌, sym, arith, true, false, not, ◌&&◌, Option, none, some, List, [],
  ◌∷◌, ◌++◌, length, length-append, append-nil, append_assoc, leb, if_both, if_cases, CtxError,
}
use gocalis.Talkback.{
  Frame, Phase, waits_tick, writes_silence, ended, writes_audio, enqueue, taken, tick, wrote, shut,
  begin_playback, clear_pending,
}
use gocalis.Talkback.History.{
  flight, is_audio, System, Event, enqueues, ticks, cancels, begins, clears, closes, answers,
  new_system, after_enqueue, turn_to, on_tick, on_cancel, on_answer, step, run,
}

-- What was written, what is being written and what is still to be written are the accepted frames in
-- their order; an open sender has the last part in its queue, of at most 100 frames.
pub record IsValid (s : System) : Type 0 where
  pub pending : List Frame
  pub order : s.written ++ (flight s.phase ++ pending) ≡ s.offered
  pub kept : s.sender.closed ≡ false → pending ≡ s.sender.queue
  pub emptied : s.sender.closed ≡ true → s.sender.queue ≡ []
  pub bounded : length s.sender.queue ≤ 100
  pub marked : s.sender.queue_high_water ≤ 100
  pub flying : s.sender.in_flight ≡ is_audio s.phase

new-IsValid : IsValid new_system
unfolding new_system
new-IsValid = record {
  pending = [];
  order = refl;
  kept = λ _. refl;
  emptied = λ _. refl;
  bounded = omega arith;
  marked = omega arith;
  flying = refl;
}

join_last :
    (s : System) (pending : List Frame) (frame : Frame)
    → s.written ++ (flight s.phase ++ pending) ≡ s.offered
    → s.written ++ (flight s.phase ++ (pending ++ frame ∷ [])) ≡ s.offered ++ frame ∷ []
join_last s pending frame h =
    ap (λ l. s.written ++ l) (sym (append_assoc (flight s.phase) pending (frame ∷ [])))
    ∙ sym (append_assoc s.written (flight s.phase ++ pending) (frame ∷ []))
    ∙ ap (λ l. l ++ frame ∷ []) h

enqueue_live-IsValid :
    (s : System) (frame : Frame)
    → IsValid s
    → IsValid (after_enqueue s frame (enqueue none s.sender frame))
unfolding enqueue
enqueue_live-IsValid s frame v =
    if_cases (λ r. IsValid (after_enqueue s frame r))
      (leb 100 (length s.sender.queue) && not s.sender.closed && true) (λ _. v)
      (λ room.
        if_cases (λ r. IsValid (after_enqueue s frame r)) s.sender.closed (λ _. v)
          (λ unclosed. record {
            pending = v.pending ++ frame ∷ [];
            order = join_last s v.pending frame v.order;
            kept = λ _. ap (λ l. l ++ frame ∷ []) (v.kept unclosed);
            emptied = λ shut. absurd (ground (arith, unclosed, shut));
            bounded = ground (arith, room, unclosed, length-append s.sender.queue (frame ∷ []));
            marked = ground (arith, room, unclosed, v.marked);
            flying = v.flying;
          }))

enqueue-IsValid :
    (s : System) (ctx : Option CtxError) (frame : Frame)
    → IsValid s
    → IsValid (after_enqueue s frame (enqueue ctx s.sender frame))
unfolding enqueue
enqueue-IsValid s none frame v = enqueue_live-IsValid s frame v
enqueue-IsValid s (some e) frame v =
    if_both (λ r. IsValid (after_enqueue s frame r))
      (leb 100 (length s.sender.queue) && not s.sender.closed && false) v v

taken-IsValid :
    (s : System) (queue : List Frame)
    → s.sender.queue ≡ queue
    → s.phase ≡ waits_tick
    → s.sender.closed ≡ false
    → IsValid s
    → IsValid (turn_to s (taken s.sender queue))
taken-IsValid s [] q at unclosed v = record {
  pending = v.pending;
  order = ap (λ p. s.written ++ (flight p ++ v.pending)) (sym at) ∙ v.order;
  kept = v.kept;
  emptied = v.emptied;
  bounded = v.bounded;
  marked = v.marked;
  flying = v.flying ∙ ap is_audio at;
}
taken-IsValid s (frame ∷ queue) q at unclosed v = record {
  pending = queue;
  order =
      ap (λ l. s.written ++ l) (sym q ∙ sym (v.kept unclosed))
      ∙ ap (λ p. s.written ++ (flight p ++ v.pending)) (sym at)
      ∙ v.order;
  kept = λ _. refl;
  emptied = λ shut. absurd (ground (arith, unclosed, shut));
  bounded =
      let whole : length s.sender.queue ≡ suc (length queue) = ap (λ l. length l) q in
      omega (arith, v.bounded, whole);
  marked = v.marked;
  flying = refl;
}

tick-IsValid : (s : System) (p : Phase) → s.phase ≡ p → IsValid s → IsValid (on_tick s p)
unfolding tick
tick-IsValid s waits_tick at v =
    if_cases (λ r. IsValid (turn_to s r)) s.sender.closed
      (λ _. record {
        pending = v.pending;
        order = ap (λ p. s.written ++ (flight p ++ v.pending)) (sym at) ∙ v.order;
        kept = v.kept;
        emptied = v.emptied;
        bounded = v.bounded;
        marked = v.marked;
        flying = v.flying ∙ ap is_audio at;
      })
      (λ unclosed. taken-IsValid s s.sender.queue refl at unclosed v)
tick-IsValid s writes_silence at v = v
tick-IsValid s ended at v = v
tick-IsValid s (writes_audio frame) at v = v

shut-IsValid :
    (s : System) (phase : Phase)
    → flight phase ≡ flight s.phase
    → is_audio phase ≡ is_audio s.phase
    → IsValid s
    → IsValid (record s { sender = shut s.sender; phase = phase })
unfolding shut
shut-IsValid s phase same audio v = record {
  pending = v.pending;
  order = ap (λ l. s.written ++ (l ++ v.pending)) same ∙ v.order;
  kept = λ unclosed. absurd (ground (arith, unclosed));
  emptied = λ _. refl;
  bounded = omega arith;
  marked = v.marked;
  flying = v.flying ∙ sym audio;
}

cancel-IsValid : (s : System) (p : Phase) → s.phase ≡ p → IsValid s → IsValid (on_cancel s p)
cancel-IsValid s waits_tick at v =
    shut-IsValid s ended (ap flight (sym at)) (ap is_audio (sym at)) v
cancel-IsValid s writes_silence at v = v
cancel-IsValid s ended at v = v
cancel-IsValid s (writes_audio frame) at v = v

-- A write that fails closes the sender; what it was writing stays unwritten.
failed-IsValid : (s : System) (e : ℕ) → IsValid s → IsValid (turn_to s (wrote s.sender (some e)))
unfolding wrote
failed-IsValid s e v = record {
  pending = flight s.phase ++ v.pending;
  order = v.order;
  kept = λ unclosed. absurd (ground (arith, unclosed));
  emptied = λ _. refl;
  bounded = omega arith;
  marked = v.marked;
  flying = refl;
}

answer-IsValid :
    (s : System) (result : Option ℕ) (p : Phase)
    → s.phase ≡ p
    → IsValid s
    → IsValid (on_answer s result p)
unfolding wrote
answer-IsValid s (some e) writes_silence at v = failed-IsValid s e v
answer-IsValid s (some e) (writes_audio frame) at v = failed-IsValid s e v
answer-IsValid s none writes_silence at v = record {
  pending = v.pending;
  order = ap (λ p. s.written ++ (flight p ++ v.pending)) (sym at) ∙ v.order;
  kept = v.kept;
  emptied = v.emptied;
  bounded = v.bounded;
  marked = v.marked;
  flying = refl;
}
answer-IsValid s none (writes_audio frame) at v = record {
  pending = v.pending;
  order =
      append_assoc s.written (frame ∷ []) v.pending
      ∙ ap (λ p. s.written ++ (flight p ++ v.pending)) (sym at)
      ∙ v.order;
  kept = v.kept;
  emptied = v.emptied;
  bounded = v.bounded;
  marked = v.marked;
  flying = refl;
}
answer-IsValid s none waits_tick at v = v
answer-IsValid s (some e) waits_tick at v = v
answer-IsValid s none ended at v = v
answer-IsValid s (some e) ended at v = v

clear-IsValid :
    (s : System)
    → IsValid s
    → IsValid (record s { sender = clear_pending s.sender; offered = flight s.phase; written = [] })
unfolding clear_pending
clear-IsValid s v = record {
  pending = [];
  order = append-nil (flight s.phase);
  kept = λ _. refl;
  emptied = λ _. refl;
  bounded = omega arith;
  marked = v.marked;
  flying = v.flying;
}

step-IsValid : (s : System) (e : Event) → IsValid s → IsValid (step s e)
unfolding step begin_playback
step-IsValid s (enqueues ctx frame) v = enqueue-IsValid s ctx frame v
step-IsValid s ticks v = tick-IsValid s s.phase refl v
step-IsValid s cancels v = cancel-IsValid s s.phase refl v
step-IsValid s (answers result) v = answer-IsValid s result s.phase refl v
step-IsValid s begins v = record {
  pending = v.pending;
  order = v.order;
  kept = v.kept;
  emptied = v.emptied;
  bounded = v.bounded;
  marked = v.marked;
  flying = v.flying;
}
step-IsValid s clears v = clear-IsValid s v
step-IsValid s closes v = shut-IsValid s s.phase refl refl v

run-IsValid : (s : System) (es : List Event) → IsValid s → IsValid (run s es)
unfolding run
run-IsValid s [] v = v
run-IsValid s (e ∷ es) v = run-IsValid (step s e) es (step-IsValid s e v)

-- In every history of playbacks, the pacing goroutine, failed writes, clears and closes, what was
-- written since the last clear, the frame that is being written and the pending frames are the
-- accepted frames in their order, an open sender has the pending ones in its queue, and the queue and
-- its high-water mark never pass 100.
pub frames_in_order : (es : List Event) → IsValid (run new_system es)
frames_in_order es = run-IsValid new_system es new-IsValid
