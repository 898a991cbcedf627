-- ===== src/Talkback/Waiting.antt =====
-- When the wait for the end of an utterance comes back, and that it does.
use gocalis.Common.{
  ◌≡◌, refl, ap, ◌∙◌, sym, arith, false, ◌||◌, Option, none, some, List, [], ◌∷◌, ◌++◌, length,
  append-nil, empty_list, CtxError,
}
use gocalis.Talkback.{
  Frame, Sender, Phase, waits_tick, writes_silence, ended, writes_audio, tick, wrote, drained,
  wait_drained,
}
use gocalis.Talkback.History.{flight, is_audio, System, Event, new_system, step, run, paced, pacing}
use gocalis.Talkback.Fifo.{IsValid, frames_in_order}

all_written :
    (s : System)
    → IsValid s
    → s.sender.closed ≡ false
    → s.sender.queue ≡ []
    → flight s.phase ≡ []
    → s.written ≡ s.offered
all_written s v unclosed empty none_flies =
    let rest : flight s.phase ++ v.pending ≡ [] =
      ap (λ l. l ++ v.pending) none_flies ∙ v.kept unclosed ∙ empty in
    sym (append-nil s.written) ∙ ap (λ l. s.written ++ l) (sym rest) ∙ v.order

nothing_left :
    (s : System)
    → IsValid s
    → s.sender.closed ≡ false
    → s.sender.queue ≡ []
    → s.sender.in_flight ≡ false
    → (p : Phase) → s.phase ≡ p
    → s.written ≡ s.offered
nothing_left s v unclosed empty landed (writes_audio frame) at =
    absurd (ground (arith, landed, v.flying ∙ ap is_audio at))
nothing_left s v unclosed empty landed waits_tick at = all_written s v unclosed empty (ap flight at)
nothing_left s v unclosed empty landed writes_silence at =
    all_written s v unclosed empty (ap flight at)
nothing_left s v unclosed empty landed ended at = all_written s v unclosed empty (ap flight at)

drained_idle :
    (t : Sender) (ctx : Option CtxError)
    → wait_drained ctx t ≡ drained
    → (t.closed ≡ false) × ((length t.queue ≡ 0) × (t.in_flight ≡ false))
unfolding wait_drained
drained_idle t none h = (ground (arith, h), (ground (arith, h), ground (arith, h)))
drained_idle t (some e) h = absurd (ground (arith, h))

-- Where waitDrained comes back without an error, all the accepted frames of the utterance have been
-- written to the track, once and in their order.
pub drained-written :
    (es : List Event) (ctx : Option CtxError)
    → wait_drained ctx (run new_system es).sender ≡ drained
    → (run new_system es).written ≡ (run new_system es).offered
drained-written es ctx h =
    let s = run new_system es in
    let (unclosed, (empty, landed)) = drained_idle s.sender ctx h in
    nothing_left s (frames_in_order es) unclosed (empty_list s.sender.queue empty) landed s.phase
      refl

-- As many rounds as frames are queued, with writes that succeed, let waitDrained come back without an
-- error.
pub paced-drained :
    (t : Sender) (queue offered written : List Frame)
    → wait_drained none (run (pacing t queue offered written) (paced (length queue))).sender
      ≡ drained
unfolding run step tick wrote wait_drained
paced-drained t [] offered written = refl
paced-drained t (frame ∷ queue) offered written =
    paced-drained (record t { first_audio_sent = t.playing || t.first_audio_sent }) queue offered
      (written ++ frame ∷ [])
