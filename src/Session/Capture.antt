-- ===== src/Session/Capture.antt =====
-- What a capture holds: the newest quarter of a second before the onset of speech, the onset, and
-- all that follows, pauses included, up to the limit.
use gocalis.Common.{
  ℕ, suc, ◌+◌, ◌-◌, ◌≤◌, ◌≡◌, refl, sym, ap, ◌∙◌, Bool, true, false, none, some, List, [], ◌∷◌,
  ◌++◌, arith, if◌then◌else◌, length, take, drop, length-append, length-drop, zero, ltb, Bool-cases,
  inl, inr,
}
use mathlib.Core.List.{append_assoc, append-nil}
use gocalis.Session.{Session, fed, start_capture, stop_capture, capture_limit, pre_roll_limit}
use gocalis.Session.Total.{IsValid, after_barge, after_accumulate, marked, after_feed}
use gocalis.Session.Calls.{calls}
use gocalis.Session.Barge.{Feed, as_calls, after_feeds, calls-feeds}

module _ {A : Type 0} where
  -- The newest `n` samples.
  pub keep_last : ℕ → List A → List A
  keep_last n xs = drop (length xs - n) xs

  drop-append-le : (n : ℕ) (xs ys : List A) → n ≤ length xs → drop n (xs ++ ys) ≡ drop n xs ++ ys
  drop-append-le zero xs ys h = refl
  drop-append-le (suc n) [] ys h = absurd (omega arith)
  drop-append-le (suc n) (x ∷ xs) ys h = drop-append-le n xs ys (omega arith)

  drop-nil : (n : ℕ) → drop {A = A} n [] ≡ []
  drop-nil zero = refl
  drop-nil (suc n) = refl

  drop-drop : (m n : ℕ) (xs : List A) → drop m (drop n xs) ≡ drop (n + m) xs
  drop-drop m zero xs = ap (λ (k : ℕ). drop k xs) (omega arith)
  drop-drop m (suc n) [] = drop-nil m ∙ sym (drop-nil (suc n + m))
  drop-drop m (suc n) (x ∷ xs) =
      let sum : suc (n + m) ≡ suc n + m = omega arith in
      drop-drop m n xs ∙ ap (λ (k : ℕ). drop k (x ∷ xs)) sum

  -- Trimming after each chunk keeps the same samples as trimming once.
  keep_last-append :
      (n : ℕ) (xs ys : List A) → keep_last n (keep_last n xs ++ ys) ≡ keep_last n (xs ++ ys)
  unfolding keep_last
  keep_last-append n xs ys =
      let k = length xs - n in
      let same = drop-append-le k xs ys (omega arith) in
      let sum : k + (length (drop k xs ++ ys) - n) ≡ length (xs ++ ys) - n =
        omega (arith, length-append xs ys, length-append (drop k xs) ys, length-drop k xs) in
      ap (drop (length (drop k xs ++ ys) - n)) (sym same)
      ∙ drop-drop (length (drop k xs ++ ys) - n) k (xs ++ ys)
      ∙ ap (λ (m : ℕ). drop m (xs ++ ys)) sum

  -- Feeds that carry no speech.
  abbrev pub silent : List (List A × ℕ) → List (Feed A)
  silent [] = []
  silent ((samples, now) ∷ fs) = (samples, false, now) ∷ silent fs

  -- All samples of the feeds.
  pub samples_of : List (Feed A) → List A
  samples_of [] = []
  samples_of ((samples, speech, now) ∷ fs) = samples ++ samples_of fs

  -- The pre-roll's way to trim.
  trim-keep_last :
      (n : ℕ) (xs : List A)
      → (if ltb n (length xs) then drop (length xs - n) xs else xs) ≡ keep_last n xs
  unfolding keep_last
  trim-keep_last n xs = elim (Bool-cases (ltb n (length xs))) [
    | inl e ↦ rw e refl
    | inr e ↦ let whole : 0 ≡ length xs - n = ground arith in rw e (ap (λ (k : ℕ). drop k xs) whole)
  ]

  record Quiet (heard : List A) (s : Session A) : Type 0 where
    active : s.capture_active ≡ true
    unarmed : s.barge_armed ≡ false
    silent : s.speech_started ≡ none
    empty : s.captured ≡ []
    rolled : s.pre_roll ≡ keep_last pre_roll_limit heard

  record Speaking (spoken : List A) (s : Session A) : Type 0 where
    active : s.capture_active ≡ true
    unarmed : s.barge_armed ≡ false
    now : ℕ
    started : s.speech_started ≡ some now
    holds : s.captured ≡ take capture_limit spoken

  -- What is heard before the onset goes to the pre-roll.
  roll :
      (n : ℕ) (heard pre ys : List A)
      → pre ≡ keep_last n heard
      → (if ltb n (length (pre ++ ys))
          then drop (length (pre ++ ys) - n) (pre ++ ys)
          else pre ++ ys)
        ≡ keep_last n (heard ++ ys)
  roll n heard pre ys h =
      trim-keep_last n (pre ++ ys) ∙ ap (λ l. keep_last n (l ++ ys)) h ∙ keep_last-append n heard ys

  feed-Quiet :
      (heard : List A) (s : Session A) (samples : List A) (now : ℕ)
      → Quiet heard s
      → Quiet (heard ++ samples) (after_feed s samples false now)
  unfolding after_feed after_barge after_accumulate marked
  feed-Quiet heard s [] now q = rw append-nil q
  feed-Quiet heard s (a ∷ samples) now q =
      let rolled = roll pre_roll_limit heard s.pre_roll (a ∷ samples) q.rolled in ground arith

  take-take_append :
      (n : ℕ) (xs ys : List A) → take n xs ++ take (n - length (take n xs)) ys ≡ take n (xs ++ ys)
  take-take_append zero xs ys = refl
  take-take_append (suc n) [] ys =
      let all : suc n - 0 ≡ suc n = omega arith in ap (λ (k : ℕ). take k ys) all
  take-take_append (suc n) (x ∷ xs) ys =
      let less : suc n - suc (length (take n xs)) ≡ n - length (take n xs) = omega arith in
      ap (λ (k : ℕ). x ∷ (take n xs ++ take k ys)) less ∙ ap (◌∷◌ x) (take-take_append n xs ys)

  -- What is said goes behind what is captured, up to the limit.
  fill :
      (n : ℕ) (xs ys zs : List A)
      → xs ≡ take n zs
      → xs ++ take (n - length xs) ys ≡ take n (zs ++ ys)
  fill n xs ys zs h = ap (λ (l : List A). l ++ take (n - length l) ys) h ∙ take-take_append n zs ys

  take-all : (n : ℕ) (xs : List A) → length xs ≤ n → take n xs ≡ xs
  take-all zero [] h = refl
  take-all zero (x ∷ xs) h = absurd (omega arith)
  take-all (suc n) [] h = refl
  take-all (suc n) (x ∷ xs) h = ap (◌∷◌ x) (take-all n xs (omega arith))

  length-keep_last-le : (n : ℕ) (xs : List A) → length (keep_last n xs) ≤ n
  unfolding keep_last
  length-keep_last-le n xs = omega (arith, length-drop (length xs - n) xs)

  feed_onset :
      (heard : List A) (s : Session A) (a : A) (samples : List A) (now : ℕ)
      → Quiet heard s
      → Speaking
          (keep_last pre_roll_limit heard ++ a ∷ samples)
          (after_feed s (a ∷ samples) true now)
  unfolding after_feed after_barge after_accumulate marked
  feed_onset heard s a samples now q =
      let fits : keep_last pre_roll_limit heard
          ≡ take capture_limit (keep_last pre_roll_limit heard) =
        sym (
          take-all capture_limit (keep_last pre_roll_limit heard)
            (omega (arith, length-keep_last-le pre_roll_limit heard))) in
      let filled =
        fill capture_limit ([] ++ s.pre_roll) (a ∷ samples) (keep_last pre_roll_limit heard)
          (q.rolled ∙ fits) in
      record {
        active = ground arith;
        unarmed = ground arith;
        now = now;
        started = ground arith;
        holds = ground (arith, filled);
      }

  feed-Speaking :
      (spoken : List A) (s : Session A) (samples : List A) (speech : Bool) (now : ℕ)
      → Speaking spoken s
      → Speaking (spoken ++ samples) (after_feed s samples speech now)
  unfolding after_feed after_barge after_accumulate marked
  feed-Speaking spoken s [] speech now q = rw append-nil q
  feed-Speaking spoken s (a ∷ samples) speech now q =
      let filled = fill capture_limit s.captured (a ∷ samples) spoken q.holds in
      record {
        active = ground arith;
        unarmed = ground arith;
        now = q.now;
        started = ground arith;
        holds = ground (arith, filled);
      }

  feeds-Quiet :
      (heard : List A) (s : Session A) (fs : List (List A × ℕ))
      → Quiet heard s
      → Quiet (heard ++ samples_of (silent fs)) (after_feeds s (silent fs))
  unfolding after_feeds samples_of
  feeds-Quiet heard s [] q = rw append-nil q
  feeds-Quiet heard s ((samples, now) ∷ fs) q =
      rw (← append_assoc heard samples (samples_of (silent fs))) (
        feeds-Quiet (heard ++ samples) (after_feed s samples false now) fs
          (feed-Quiet heard s samples now q))

  feeds-Speaking :
      (spoken : List A) (s : Session A) (fs : List (Feed A))
      → Speaking spoken s
      → Speaking (spoken ++ samples_of fs) (after_feeds s fs)
  unfolding after_feeds samples_of
  feeds-Speaking spoken s [] q = rw append-nil q
  feeds-Speaking spoken s ((samples, speech, now) ∷ fs) q =
      rw (← append_assoc spoken samples (samples_of fs)) (
        feeds-Speaking (spoken ++ samples) (after_feed s samples speech now) fs
          (feed-Speaking spoken s samples speech now q))

  after_feeds-append :
      (s : Session A) (fs gs : List (Feed A))
      → after_feeds s (fs ++ gs) ≡ after_feeds (after_feeds s fs) gs
  unfolding after_feeds
  after_feeds-append s [] gs = refl
  after_feeds-append s ((samples, speech, now) ∷ fs) gs =
      after_feeds-append (after_feed s samples speech now) fs gs

  -- A capture that starts with the barge-in disarmed holds exactly the newest quarter of a second
  -- heard before the onset of speech, the onset and everything after it, cut at 120 seconds.
  pub capture_exact :
      (s : Session A) (quiet : List (List A × ℕ)) (a : A) (onset : List A) (now : ℕ)
      (rest : List (Feed A))
      → IsValid s
      → s.barge_armed ≡ false
      → (t : Session A) × (calls
            (start_capture s)
            (as_calls (silent quiet ++ (a ∷ onset, true, now) ∷ rest))
          ≡ fed t)
        × ((stop_capture t).1
            ≡ take capture_limit (
                (keep_last pre_roll_limit (samples_of (silent quiet)) ++ a ∷ onset)
                ++ samples_of rest))
  unfolding start_capture stop_capture after_feeds
  capture_exact s quiet a onset now rest v unarmed =
      let c = start_capture s in
      let start : Quiet [] c = record {
        active = refl;
        unarmed = unarmed;
        silent = refl;
        empty = refl;
        rolled = unfold keep_last in drop-nil (0 - pre_roll_limit);
      } in
      let still = feeds-Quiet [] c quiet start in
      let heard = samples_of (silent quiet) in
      let spoken = feed_onset heard (after_feeds c (silent quiet)) a onset now still in
      let ends = feeds-Speaking _ _ rest spoken in
      (
        after_feeds c (silent quiet ++ (a ∷ onset, true, now) ∷ rest),
        calls-feeds c (silent quiet ++ (a ∷ onset, true, now) ∷ rest) (ground arith),
        ap (λ (t : Session A). t.captured)
              (after_feeds-append c (silent quiet) ((a ∷ onset, true, now) ∷ rest))
            ∙ ends.holds,
      )
