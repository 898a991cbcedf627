-- ===== src/Session/Barge.antt =====
-- The barge-in signal over a series of feeds.
use gocalis.Common.{
  ℕ, ◌≡◌, refl, Bool, true, false, some, List, [], ◌∷◌, arith, if◌then◌else◌, Bool-cases, inl, inr,
}
use gocalis.Session.{Session, listening, arm_barge_in, disarm_barge_in, fed}
use gocalis.Session.Total.{
  IsValid, after_barge, after_accumulate, marked, after_feed, feed_pcm-fed, after_feed-IsValid,
}
use gocalis.Session.Calls.{Call, feeds, calls, and_then, call}

-- A feed: its samples, the voice activity, the time.
abbrev pub Feed : Type 0 → Type 0
Feed A = List A × Bool × ℕ

module _ {A : Type 0} where
  abbrev pub as_calls : List (Feed A) → List (Call A)
  as_calls [] = []
  as_calls ((samples, speech, now) ∷ fs) = feeds samples speech now ∷ as_calls fs

  -- Whether some feed carries speech.
  abbrev pub is_speech : Feed A → Bool
  is_speech ([], speech, now) = false
  is_speech (a ∷ samples, speech, now) = speech

  pub some_speech : List (Feed A) → Bool
  some_speech [] = false
  some_speech (f ∷ fs) = if is_speech f then true else some_speech fs

  unfoldable pub after_feeds : Session A → List (Feed A) → Session A
  after_feeds s [] = s
  after_feeds s ((samples, speech, now) ∷ fs) = after_feeds (after_feed s samples speech now) fs

  pub calls-feeds :
      (s : Session A) (fs : List (Feed A))
      → IsValid s
      → calls s (as_calls fs) ≡ fed (after_feeds s fs)
  unfolding calls and_then call after_feeds
  calls-feeds s [] v = refl
  calls-feeds s ((samples, speech, now) ∷ fs) v =
      rw (feed_pcm-fed s samples speech now v) (
        calls-feeds (after_feed s samples speech now) fs
          (after_feed-IsValid s samples speech now v))

  -- An armed session that has heard no speech yet, and one that has.
  record Waits (s : Session A) : Type 0 where
    is_armed : s.barge_armed ≡ true
    not_barged : s.barged ≡ false
    empty : s.barge_ch ≡ some 0

  record Signalled (s : Session A) : Type 0 where
    is_armed : s.barge_armed ≡ true
    has_barged : s.barged ≡ true
    one : s.barge_ch ≡ some 1
    listens : s.state ≡ listening
    captures : s.capture_active ≡ true

  accumulate-Waits :
      (s : Session A) (samples : List A) (speech : Bool) (now : ℕ)
      → Waits s
      → Waits (after_accumulate s samples speech now)
  unfolding after_accumulate marked
  accumulate-Waits s samples speech now w = ground arith

  accumulate-Signalled :
      (s : Session A) (samples : List A) (speech : Bool) (now : ℕ)
      → Signalled s
      → Signalled (after_accumulate s samples speech now)
  unfolding after_accumulate marked
  accumulate-Signalled s samples speech now w = ground arith

  feed-Waits :
      (s : Session A) (samples : List A) (speech : Bool) (now : ℕ)
      → is_speech (samples, speech, now) ≡ false
      → Waits s
      → Waits (after_feed s samples speech now)
  unfolding after_feed after_barge
  feed-Waits s [] speech now h w = w
  feed-Waits s (a ∷ samples) speech now h w =
      ground (arith, accumulate-Waits s (a ∷ samples) speech now w)

  feed-Signalled :
      (s : Session A) (samples : List A) (speech : Bool) (now : ℕ)
      → Signalled s
      → Signalled (after_feed s samples speech now)
  unfolding after_feed after_barge
  feed-Signalled s [] speech now w = w
  feed-Signalled s (a ∷ samples) speech now w =
      ground (arith, accumulate-Signalled s (a ∷ samples) speech now w)

  feed_first_speech :
      (s : Session A) (samples : List A) (speech : Bool) (now : ℕ)
      → is_speech (samples, speech, now) ≡ true
      → Waits s
      → Signalled (after_feed s samples speech now)
  unfolding after_feed
  feed_first_speech s [] speech now h w = cc
  feed_first_speech s (a ∷ samples) speech now h w =
      let b = after_barge s speech in
      let signalled : Signalled b = unfold after_barge in ground arith in
      ground (arith, accumulate-Signalled b (a ∷ samples) speech now signalled)

  feeds-Signalled :
      (s : Session A) (fs : List (Feed A)) → Signalled s → Signalled (after_feeds s fs)
  unfolding after_feeds
  feeds-Signalled s [] w = w
  feeds-Signalled s ((samples, speech, now) ∷ fs) w =
      feeds-Signalled (after_feed s samples speech now) fs (feed-Signalled s samples speech now w)

  feeds_cases :
      (s : Session A) (fs : List (Feed A))
      → Waits s
      → (some_speech fs ≡ true → Signalled (after_feeds s fs))
        × (some_speech fs ≡ false → Waits (after_feeds s fs))
  unfolding after_feeds some_speech
  feeds_cases s [] w = (λ h. cc, λ _. w)
  feeds_cases s ((samples, speech, now) ∷ fs) w =
      elim (Bool-cases (is_speech (samples, speech, now))) [
        | inl e ↦ (
          λ _.
              feeds-Signalled (after_feed s samples speech now) fs
                (feed_first_speech s samples speech now e w),
          λ h. absurd (ground arith),
        )
        | inr e ↦
            let rest =
              feeds_cases (after_feed s samples speech now) fs
                (feed-Waits s samples speech now e w) in
            (λ h. rest.0 (ground arith), λ h. rest.1 (ground arith))
      ]

  -- From ArmBargeIn until DisarmBargeIn the feeds put one signal into the channel if any of them
  -- carries speech, and none otherwise; DisarmBargeIn answers whether one did, and the first such feed
  -- has moved the session to listening, with the capture on.
  pub barge_signals_once :
      (s : Session A) (fs : List (Feed A))
      → IsValid s
      → (t : Session A) × (calls (arm_barge_in s) (as_calls fs) ≡ fed t)
        × (t.barge_ch ≡ some (if some_speech fs then 1 else 0))
        × ((disarm_barge_in t).1 ≡ some_speech fs)
        × (some_speech fs ≡ true → (t.state ≡ listening) × (t.capture_active ≡ true))
  unfolding arm_barge_in disarm_barge_in
  barge_signals_once s fs v =
      let a = arm_barge_in s in
      let cases = feeds_cases a fs (record { is_armed = refl; not_barged = refl; empty = refl }) in
      (after_feeds a fs, calls-feeds a fs (ground arith), ground arith, ground arith, ground arith)
