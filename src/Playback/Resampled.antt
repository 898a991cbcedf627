-- ===== src/Playback/Resampled.antt =====
-- What a playback over the talkback enqueues: the frames of the whole clip at 48 kHz.
use gocalis.Common.{
  ℕ, ◌*◌, ◌/◌, ◌==◌, ◌<◌, ◌≡◌, refl, ap, ◌∙◌, sym, subst, arith, false, Option, none, some, List,
  [], ◌∷◌, ◌++◌, length, concat, append-nil, append_assoc, Bool-cases, Option-cases, inl, inr,
  empty_list, length-append,
}
use gocalis.Resample.{PcmResampler, new_resampler, stream, append_to, and_then}
use gocalis.Resample as Resample
use gocalis.Resample.Whole.{whole_clip, points}
use gocalis.Resample.Stream.{stream-whole_clip}
use gocalis.Playback.{completed, Line, padded, send}
use gocalis.Playback.Framing.{
  sound, open_link, IsFramed, IsPlayed, with_frame, Works, push-Framed, padded-IsPlayed,
  empty-IsPlayed,
}
use gocalis.Playback.Whole.{play_works, readings_of, concat-all_spoken}
use gocalis.Playback.Talkback.{
  Talk, current, step, with_line, after_resample, push_pcm, send_tail, after_loop, flush_line,
  after_flushed, flush_pcm, play_talkback,
}

abbrev Result : Type 0
Result = Option (PcmResampler × List ℕ)

append_to-append_to :
    (xs ys : List ℕ) (o : Result) → append_to xs (append_to ys o) ≡ append_to (xs ++ ys) o
append_to-append_to xs ys none = refl
append_to-append_to xs ys (some (r, out)) = ap (λ l. some (r, l)) (sym (append_assoc xs ys out))

append_to-none : (o : Result) → append_to [] o ≡ o
append_to-none none = refl
append_to-none (some (r, out)) = refl

module _ (lerp : ℕ → ℕ → ℕ → ℕ → ℕ) (rate : ℕ) (pos : 0 < rate) {Enc : Type 0}
    (pack : Enc → List ℕ → Enc × List ℕ) (start : Enc) where
  works : Works pack start 480 (step lerp rate (sound pack) open_link)
  unfolding step send
  works l = refl

  resampled : List (List ℕ) → List ℕ
  resampled chunks = whole_clip lerp rate 48000 (concat chunks)

  -- What was resampled so far, in front of what the resampler still gives, is the whole stream.
  record Pushed (past : List (List ℕ)) (t : Talk Enc) : Type 0 where
    fed : List ℕ
    framed : IsFramed pack start 480 fed t.line
    short : length t.line.rest < 480
    streamed :
        (more : List (List ℕ))
        → stream lerp (new_resampler rate 48000) (past ++ more)
          ≡ append_to fed (stream lerp (current lerp rate t.resampler) more)
    fresh : t.resampler ≡ none → (past ≡ []) × (fed ≡ [])

  abbrev Done : List (List ℕ) → Talk Enc → Type 0
  Done past t = IsPlayed pack start 480 0 (resampled past) t.line.sent

  whole :
      (chunks : List (List ℕ))
      → (r : PcmResampler) × (stream lerp (new_resampler rate 48000) chunks
          ≡ some (r, resampled chunks))
  unfolding resampled
  whole chunks = stream-whole_clip lerp rate 48000 (pos, omega arith) chunks

  no_panic :
      (chunks : List (List ℕ)) {A : Type 0}
      → stream lerp (new_resampler rate 48000) chunks ≡ none
      → A
  no_panic chunks h = let (r, e) = whole chunks in absurd (ground (arith, h, e))

  push_step :
      (past : List (List ℕ)) (t : Talk Enc) (pcm : List ℕ)
      → Pushed past t
      → (o : Result) → Resample.push lerp (current lerp rate t.resampler) pcm ≡ o
      → (t' : Talk Enc) × (after_resample lerp rate (sound pack) open_link t o ≡ (t', none))
        × Pushed (past ++ pcm ∷ []) t'
  unfolding stream
  push_step past t pcm v none h =
      no_panic (past ++ pcm ∷ [])
        (v.streamed (pcm ∷ []) ∙ ap (λ o. append_to v.fed (and_then o (λ r. stream lerp r []))) h)
  push_step past t pcm v (some (r, out)) h =
      let (l, e, framed, short) =
        push-Framed pack start 480 (step lerp rate (sound pack) open_link) works (omega arith) v.fed
          t.line out v.framed in
      (
        record { resampler = some r; line = l },
        ap (with_line lerp rate (sound pack) open_link (some r)) e,
        record {
          fed = v.fed ++ out;
          framed = framed;
          short = short;
          streamed = λ more.
              ap (λ l. stream lerp (new_resampler rate 48000) l) (append_assoc past (pcm ∷ []) more)
              ∙ v.streamed (pcm ∷ more)
              ∙ ap (λ o. append_to v.fed (and_then o (λ r'. stream lerp r' more))) h
              ∙ append_to-append_to v.fed out (stream lerp r more);
          fresh = λ x. absurd (ground (arith, x));
        },
      )

  push_works :
      (past : List (List ℕ)) (t : Talk Enc) (pcm : List ℕ)
      → Pushed past t
      → (t' : Talk Enc) × (push_pcm lerp rate (sound pack) open_link t pcm ≡ (t', none))
        × Pushed (past ++ pcm ∷ []) t'
  unfolding push_pcm
  push_works past t pcm v =
      let real : (rate == 0) ≡ false = ground (arith, pos) in
      rw real (push_step past t pcm v (Resample.push lerp (current lerp rate t.resampler) pcm) refl)

  tail_works :
      (fed : List ℕ) (l : Line Enc)
      → IsFramed pack start 480 fed l
      → length l.rest < 480
      → (l' : Line Enc) × (send_tail lerp rate (sound pack) open_link l ≡ (l', none))
        × IsPlayed pack start 480 0 fed l'.sent
  unfolding send_tail send
  tail_works fed l v short = elim (Bool-cases (length l.rest == 0)) [
    | inl none_left ↦ (
      l,
      rw none_left refl,
      empty-IsPlayed pack start 480 0 fed l v (empty_list l.rest (ground (arith, none_left)))
          (omega arith),
    )
    | inr some_left ↦ (
      with_frame pack start 480 l (padded 480 0 l.rest) [],
      rw some_left refl,
      padded-IsPlayed pack start 480 0 fed l v (ground (arith, some_left)) short,
    )
  ]

  line_works :
      (fed : List ℕ) (l : Line Enc) (out : List ℕ)
      → IsFramed pack start 480 fed l
      → (l' : Line Enc) × (flush_line lerp rate (sound pack) open_link l out ≡ (l', none))
        × IsPlayed pack start 480 0 (fed ++ out) l'.sent
  unfolding flush_line
  line_works fed l out v = elim (Bool-cases (length (l.rest ++ out) == 0)) [
    | inl none_left ↦
        let gone : out ≡ [] =
          empty_list out (ground (arith, none_left, length-append l.rest out)) in
        let empty : l.rest ≡ [] =
          empty_list l.rest (ground (arith, none_left, length-append l.rest out)) in
        let played = empty-IsPlayed pack start 480 0 fed l v empty (omega arith) in
        (
          l,
          rw none_left refl,
          subst (λ xs. IsPlayed pack start 480 0 xs l.sent)
              (sym (append-nil fed) ∙ ap (λ xs. fed ++ xs) (sym gone)) played,
        )
    | inr some_left ↦
        let (l1, e, framed, short) =
          push-Framed pack start 480 (step lerp rate (sound pack) open_link) works (omega arith) fed
            l out v in
        let (l2, f, played) = tail_works (fed ++ out) l1 framed short in
        (l2, rw some_left (ap (after_loop lerp rate (sound pack) open_link) e ∙ f), played)
  ]

  resampled_all :
      (past : List (List ℕ)) (r : PcmResampler) (out : List ℕ)
      → stream lerp (new_resampler rate 48000) past ≡ some (r, out)
      → out ≡ resampled past
  resampled_all past r out h =
      let (r', e) = whole past in ap (λ o. elim o [ some x ↦ x.1 | none ↦ [] ]) (sym h ∙ e)

  all_of :
      (past : List (List ℕ)) (t : Talk Enc) (v : Pushed past t) (r : PcmResampler)
      → t.resampler ≡ some r
      → (o : Result) → Resample.flush lerp r ≡ o
      → stream lerp (new_resampler rate 48000) past ≡ append_to v.fed o
  unfolding stream
  all_of past t v r is o h =
      ap (λ l. stream lerp (new_resampler rate 48000) l) (sym (append-nil past))
      ∙ v.streamed []
      ∙ ap (λ x. append_to v.fed (Resample.flush lerp (current lerp rate x))) is
      ∙ ap (append_to v.fed) h

  flush_step :
      (past : List (List ℕ)) (t : Talk Enc)
      → Pushed past t
      → (r : PcmResampler) → t.resampler ≡ some r
      → (o : Result) → Resample.flush lerp r ≡ o
      → (t' : Talk Enc) × (after_flushed lerp rate (sound pack) open_link t o ≡ (t', none))
        × Done past t'
  unfolding stream
  flush_step past t v r is none h = no_panic past (all_of past t v r is none h)
  flush_step past t v r is (some (r', out)) h =
      let (l, e, played) = line_works v.fed t.line out v.framed in
      let whole_fed : v.fed ++ out ≡ resampled past =
        resampled_all past r' (v.fed ++ out) (all_of past t v r is (some (r', out)) h) in
      (
        record { resampler = none; line = l },
        ap (with_line lerp rate (sound pack) open_link none) e,
        subst (λ xs. IsPlayed pack start 480 0 xs l.sent) whole_fed played,
      )

  resampled_none : resampled [] ≡ []
  unfolding resampled whole_clip points
  resampled_none =
      let none_left : 0 * 48000 / rate ≡ 0 = omega (arith, pos) in
      ap (λ n. points lerp rate 48000 [] 0 n) none_left

  flush_works :
      (past : List (List ℕ)) (t : Talk Enc)
      → Pushed past t
      → (t' : Talk Enc) × (flush_pcm lerp rate (sound pack) open_link t ≡ (t', none)) × Done past t'
  unfolding flush_pcm
  flush_works past t v = elim (Option-cases t.resampler) [
    | inl off ↦
        let (l, e, played) = line_works v.fed t.line [] v.framed in
        let nothing : v.fed ++ [] ≡ resampled past =
          append-nil v.fed
          ∙ (v.fresh off).1
          ∙ sym resampled_none
          ∙ ap resampled (sym (v.fresh off).0) in
        (
          record { resampler = none; line = l },
          rw off (ap (with_line lerp rate (sound pack) open_link none) e),
          subst (λ xs. IsPlayed pack start 480 0 xs l.sent) nothing played,
        )
    | inr (r, on) ↦
        let (t', e, d) = flush_step past t v r on (Resample.flush lerp r) refl in
        (
          t',
          ap
                (λ x. elim x [
                  | none ↦
                      with_line lerp rate (sound pack) open_link none
                        (flush_line lerp rate (sound pack) open_link t.line [])
                  | some r' ↦
                      after_flushed lerp rate (sound pack) open_link t (Resample.flush lerp r')
                ])
                on
              ∙ e,
          d,
        )
  ]

  -- Where no call fails, a playback over the talkback completes, and what it enqueued are the samples
  -- of the whole clip at 48 kHz, as if it were resampled in one piece, cut into frames of 480 samples
  -- and encoded in order, with the last frame alone filled up with silence.
  pub play_talkback-IsPlayed :
      (chunks : List (List ℕ)) (last : List ℕ)
      → (t : Talk Enc) × (play_talkback lerp rate
            (sound pack)
            open_link
            start
            (readings_of chunks last)
          ≡ (t, completed))
        × IsPlayed pack start 480 0 (whole_clip lerp rate 48000 (concat chunks ++ last)) t.line.sent
  unfolding play_talkback resampled
  play_talkback-IsPlayed chunks last =
      let first : Talk Enc = record {
        resampler = none;
        line = record { enc = start; rest = []; sent = [] };
      } in
      let (t, e, done) =
        play_works (push_pcm lerp rate (sound pack) open_link)
          (flush_pcm lerp rate (sound pack) open_link) Pushed Done push_works flush_works [] first
          chunks last
          (record {
            fed = [];
            framed = record { blocks = []; joined = refl; sized = tt; reached = refl; out = refl };
            short = omega arith;
            streamed = λ more. sym (append_to-none (stream lerp (new_resampler rate 48000) more));
            fresh = λ x. (refl, refl);
          }) in
      (
        t,
        e,
        subst (λ xs. IsPlayed pack start 480 0 (whole_clip lerp rate 48000 xs) t.line.sent)
            (concat-all_spoken chunks last) done,
      )
