-- ===== src/Session/Total.antt =====
-- Feeding a session neither blocks on the signal channel nor slices out of range, and keeps the
-- buffers within their limits.
use gocalis.Common.{
  ℕ, ◌-◌, ◌≤◌, ◌≡◌, refl, Bool, true, false, ◌&&◌, not, none, some, List, [], ◌∷◌, ◌++◌, length,
  length-append, length-take, length-drop, take, arith, Option-cases, if_both, inl, inr,
  if◌then◌else◌,
}
use gocalis.Session.{
  Session, fed, listening, capture_limit, pre_roll_limit, barge_in, mark_speech, keep_pre_roll,
  accumulate, feed_pcm,
}

module _ {A : Type 0} where
  pub record IsValid (s : Session A) : Type 0 where
    pub captured_bounded : length s.captured ≤ capture_limit
    pub pre_roll_bounded : length s.pre_roll ≤ pre_roll_limit
    pub onset : s.speech_started ≡ none → s.captured ≡ []
    pub armed : s.barge_armed ≡ true → s.barged ≡ false → s.barge_ch ≡ some 0

  -- The session after the barge-in part of a feed, and after the rest, where nothing blocks.
  unfoldable pub after_barge : Session A → Bool → Session A
  after_barge s speech =
      if speech && (s.barge_armed && not s.barged)
      then record s {
        barge_ch = some 1;
        barged = true;
        capture_active = true;
        captured = [];
        state = listening;
      }
      else s

  barge_in-fed :
      (s : Session A) (speech : Bool) → IsValid s → barge_in s speech ≡ fed (after_barge s speech)
  unfolding barge_in after_barge
  barge_in-fed s speech v = ground arith

  after_barge-IsValid : (s : Session A) (speech : Bool) → IsValid s → IsValid (after_barge s speech)
  unfolding after_barge
  after_barge-IsValid s speech v = ground arith

  unfoldable pub marked : Session A → Bool → ℕ → Session A
  unfolding mark_speech
  marked s speech now = if speech then mark_speech s now else s

  marked-IsValid :
      (s : Session A) (speech : Bool) (now : ℕ) → IsValid s → IsValid (marked s speech now)
  unfolding marked
  marked-IsValid s speech now v = ground (arith, length-append s.captured s.pre_roll)

  unfoldable pub after_accumulate : Session A → List A → Bool → ℕ → Session A
  unfolding marked keep_pre_roll
  after_accumulate s samples speech now =
      let m = marked s speech now in
      elim m.speech_started [
        | none ↦ keep_pre_roll m samples
        | some _ ↦ record m {
          captured = m.captured ++ take (capture_limit - length m.captured) samples;
        }
      ]

  accumulate-fed :
      (s : Session A) (samples : List A) (speech : Bool) (now : ℕ)
      → IsValid s
      → accumulate s samples speech now ≡ fed (after_accumulate s samples speech now)
  unfolding accumulate after_accumulate
  accumulate-fed s samples speech now v = ground (arith, marked-IsValid s speech now v)

  keep_pre_roll-IsValid :
      (s : Session A) (samples : List A) → IsValid s → IsValid (keep_pre_roll s samples)
  unfolding keep_pre_roll
  keep_pre_roll-IsValid s samples v =
      ground (
        arith,
        length-drop (length (s.pre_roll ++ samples) - pre_roll_limit) (s.pre_roll ++ samples),
      )

  take_rest_bound :
      (n : ℕ) (xs ys : List A) → length xs ≤ n → length (xs ++ take (n - length xs) ys) ≤ n
  take_rest_bound n xs ys h =
      omega (arith, length-append xs (take (n - length xs) ys), length-take (n - length xs) ys)

  after_accumulate-IsValid :
      (s : Session A) (samples : List A) (speech : Bool) (now : ℕ)
      → IsValid s
      → IsValid (after_accumulate s samples speech now)
  unfolding after_accumulate
  after_accumulate-IsValid s samples speech now v =
      let m = marked s speech now in
      let w = marked-IsValid s speech now v in
      elim (Option-cases m.speech_started) [
        | inl e ↦ rw (e, after_accumulate) (keep_pre_roll-IsValid m samples w)
        | inr (t, e) ↦
            rw (e, after_accumulate)
              (ground
                (arith, w, take_rest_bound capture_limit m.captured samples w.captured_bounded))
      ]

  -- The session after a feed.
  unfoldable pub after_feed : Session A → List A → Bool → ℕ → Session A
  after_feed s [] speech now = s
  after_feed s (a ∷ samples) speech now =
      let b = after_barge s speech in
      if b.capture_active then after_accumulate b (a ∷ samples) speech now else b

  pub feed_pcm-fed :
      (s : Session A) (samples : List A) (speech : Bool) (now : ℕ)
      → IsValid s
      → feed_pcm s samples speech now ≡ fed (after_feed s samples speech now)
  unfolding feed_pcm after_feed
  feed_pcm-fed s [] speech now v = refl
  feed_pcm-fed s (a ∷ samples) speech now v =
      let b = after_barge s speech in
      let w = after_barge-IsValid s speech v in
      rw (barge_in-fed s speech v) (ground (arith, accumulate-fed b (a ∷ samples) speech now w))

  pub after_feed-IsValid :
      (s : Session A) (samples : List A) (speech : Bool) (now : ℕ)
      → IsValid s
      → IsValid (after_feed s samples speech now)
  unfolding after_feed
  after_feed-IsValid s [] speech now v = v
  after_feed-IsValid s (a ∷ samples) speech now v =
      let b = after_barge s speech in
      let w = after_barge-IsValid s speech v in
      if_both IsValid b.capture_active (after_accumulate-IsValid b (a ∷ samples) speech now w) w

  -- A feed of a valid session always comes back, and with a valid session: the send finds its
  -- channel open and empty, no slice is out of range, and the buffers stay within their limits.
  pub feed_pcm_total :
      (s : Session A) (samples : List A) (speech : Bool) (now : ℕ)
      → IsValid s
      → (s' : Session A) × (feed_pcm s samples speech now ≡ fed s') × IsValid s'
  feed_pcm_total s samples speech now v = (
    after_feed s samples speech now,
    feed_pcm-fed s samples speech now v,
    after_feed-IsValid s samples speech now v,
  )
