-- ===== src/Runtime/Segments.antt =====
-- The wake word detector hears segments of the audio, each one behind a reset.
use gocalis.Common.{
  ℕ, sym, arith, ◌≡◌, refl, ap, ◌∙◌, Bool, true, false, not, ◌&&◌, List, [], ◌∷◌, ◌++◌,
  if◌then◌else◌, Bool-cases, inl, inr, keep_if,
}
use gocalis.Node.{NodeState, idle, speaking, listening, processing, challenging}
use gocalis.Runtime.{
  same_state, Effect, records, resets_vad, resets_wake, hears_wake, hears_vad, feeds, Gate, Heard,
  is_empty, is_for_wake, is_dropped, hear_wake, on_audio, hear_all,
}

-- What the detector sees of the effects.
abbrev pub wake_part : List Effect → List Effect
wake_part [] = []
wake_part (resets_wake ∷ es) = resets_wake ∷ wake_part es
wake_part (hears_wake s ∷ es) = hears_wake s ∷ wake_part es
wake_part (e ∷ es) = wake_part es

-- The audio that the detector is given.
abbrev pub wake_audio : List Effect → List (List ℕ)
wake_audio [] = []
wake_audio (hears_wake s ∷ es) = s ∷ wake_audio es
wake_audio (e ∷ es) = wake_audio es

-- The states of a call in which a wake word may be spoken: the node is idle, and no wake turn is
-- pending.
abbrev pub wakes : NodeState → Bool → Bool
wakes idle false = true
wakes idle true = false
wakes speaking p = false
wakes listening p = false
wakes processing p = false
wakes challenging p = false

abbrev pub is_awake : Heard → Bool
is_awake h = wakes h.state h.wake_pending

abbrev pub has_samples : Heard → Bool
has_samples h = elim h.samples [ [] ↦ false | x ∷ xs ↦ true ]

-- The segments: a call at which a wake word may be spoken is heard, behind a reset where the call
-- before it was not.
abbrev pub segments : Bool → List Heard → List Effect
segments active [] = []
segments active (h ∷ calls) =
    let later = segments true calls in
    let idle_later = segments false calls in
    if is_awake h
    then (if active then [] else resets_wake ∷ []) ++ hears_wake h.samples ∷ later
    else idle_later

for_wake-eq :
    (s : NodeState) (pending : Bool) → (same_state s idle && not pending) ≡ wakes s pending
for_wake-eq idle true = refl
for_wake-eq idle false = refl
for_wake-eq speaking p = refl
for_wake-eq listening p = refl
for_wake-eq processing p = refl
for_wake-eq challenging p = refl

for_wake-awake : (h : Heard) → is_for_wake h ≡ is_awake h
for_wake-awake h = for_wake-eq h.state h.wake_pending

full-has : (s : List ℕ) → elim s [ [] ↦ false | x ∷ xs ↦ true ] ≡ not (is_empty s)
full-has [] = refl
full-has (x ∷ xs) = refl

wake_part-append : (xs ys : List Effect) → wake_part (xs ++ ys) ≡ wake_part xs ++ wake_part ys
wake_part-append [] ys = refl
wake_part-append (records s ∷ xs) ys = wake_part-append xs ys
wake_part-append (resets_vad ∷ xs) ys = wake_part-append xs ys
wake_part-append (resets_wake ∷ xs) ys = ap (λ l. resets_wake ∷ l) (wake_part-append xs ys)
wake_part-append (hears_wake s ∷ xs) ys = ap (λ l. hears_wake s ∷ l) (wake_part-append xs ys)
wake_part-append (hears_vad s ∷ xs) ys = wake_part-append xs ys
wake_part-append (feeds s b ∷ xs) ys = wake_part-append xs ys

-- A reset of the VAD is nothing to the detector.
vad_reset-none :
    (test : Bool) (es : List Effect)
    → wake_part ((if test then [] else resets_vad ∷ []) ++ es) ≡ wake_part es
vad_reset-none true es = refl
vad_reset-none false es = refl

vad_only : (test : Bool) → wake_part (if test then [] else resets_vad ∷ []) ≡ []
vad_only true = refl
vad_only false = refl

-- A call with samples, with echo cancellation.
heard_segment :
    (g : Gate) (h : Heard) (p : NodeState) (calls : List Heard)
    → let w = hear_wake (record g { previous_state = p }) h in
      wake_part (w.1 ++ hears_vad h.samples ∷ feeds h.samples h.is_speech ∷ [])
        ++ segments w.0.wake_active calls
      ≡ segments g.wake_active (h ∷ calls)
heard_segment g h p calls = elim (Bool-cases (is_for_wake h)) [
  | inl for_wake ↦
      let awake : is_awake h ≡ true = sym (for_wake-awake h) ∙ for_wake in
      elim (Bool-cases g.wake_active) [
        | inl active ↦ rw for_wake (rw awake (rw active refl))
        | inr inactive ↦ rw for_wake (rw awake (rw inactive refl))
      ]
  | inr other ↦
      let asleep : is_awake h ≡ false = sym (for_wake-awake h) ∙ other in rw other (rw asleep refl)
]

one_call :
    (g : Gate) (h : Heard) (calls : List Heard)
    → let r = on_audio false g h in
      wake_part r.1 ++ segments r.0.wake_active calls
      ≡ segments g.wake_active (if has_samples h then h ∷ calls else calls)
unfolding on_audio
one_call g h calls = elim (Bool-cases (is_empty h.samples)) [
  | inl empty ↦
      let has : has_samples h ≡ false = full-has h.samples ∙ ap not empty in rw empty (rw has refl)
  | inr full ↦
      let has : has_samples h ≡ true = full-has h.samples ∙ ap not full in
      let w = hear_wake (record g { previous_state = h.state }) h in
      let behind = w.1 ++ hears_vad h.samples ∷ feeds h.samples h.is_speech ∷ [] in
      rw full (
        rw has (
          ap (λ l. l ++ segments w.0.wake_active calls)
            (vad_reset-none (same_state h.state g.previous_state) behind)
          ∙ heard_segment g h h.state calls))
]

all_segments :
    (g : Gate) (calls : List Heard)
    → wake_part (hear_all false g calls) ≡ segments g.wake_active (keep_if has_samples calls)
unfolding hear_all on_audio
all_segments g [] = refl
all_segments g (h ∷ calls) =
    let r = on_audio false g h in
    wake_part-append r.1 (hear_all false r.0 calls)
    ∙ ap (λ l. wake_part r.1 ++ l) (all_segments r.0 calls)
    ∙ one_call g h (keep_if has_samples calls)

wake_audio-append : (xs ys : List Effect) → wake_audio (xs ++ ys) ≡ wake_audio xs ++ wake_audio ys
wake_audio-append [] ys = refl
wake_audio-append (records s ∷ xs) ys = wake_audio-append xs ys
wake_audio-append (resets_vad ∷ xs) ys = wake_audio-append xs ys
wake_audio-append (resets_wake ∷ xs) ys = wake_audio-append xs ys
wake_audio-append (hears_wake s ∷ xs) ys = ap (λ l. s ∷ l) (wake_audio-append xs ys)
wake_audio-append (hears_vad s ∷ xs) ys = wake_audio-append xs ys
wake_audio-append (feeds s b ∷ xs) ys = wake_audio-append xs ys

-- The audio of the calls with samples at which a wake word may be spoken.
abbrev pub awake_audio : List Heard → List (List ℕ)
awake_audio [] = []
awake_audio (h ∷ calls) =
    let rest = awake_audio calls in if has_samples h && is_awake h then h.samples ∷ rest else rest

dropped-asleep :
    (half_duplex : Bool) (h : Heard) → is_dropped half_duplex h ≡ true → is_for_wake h ≡ false
dropped-asleep half_duplex h d = ground arith

one_audio :
    (half_duplex : Bool) (g : Gate) (h : Heard)
    → wake_audio (on_audio half_duplex g h).1
      ≡ (if has_samples h && is_awake h then h.samples ∷ [] else [])
unfolding on_audio
one_audio half_duplex g h =
    rw (full-has h.samples)
      (rw (sym (for_wake-awake h)) (ground (arith, dropped-asleep half_duplex h)))

all_audio :
    (half_duplex : Bool) (g : Gate) (calls : List Heard)
    → wake_audio (hear_all half_duplex g calls) ≡ awake_audio calls
unfolding hear_all
all_audio half_duplex g [] = refl
all_audio half_duplex g (h ∷ calls) =
    let r = on_audio half_duplex g h in
    wake_audio-append r.1 (hear_all half_duplex r.0 calls)
    ∙ ap (λ l. wake_audio r.1 ++ l) (all_audio half_duplex r.0 calls)
    ∙ ap (λ l. l ++ awake_audio calls) (one_audio half_duplex g h)
    ∙ elim (Bool-cases (has_samples h && is_awake h)) [ inl e ↦ rw e refl | inr e ↦ rw e refl ]

-- In every history of the audio callback, with echo cancellation or without, the detector is given
-- exactly the samples of the calls at which the node is idle and no wake turn is pending, in their
-- order. With echo cancellation, and calls without samples left aside, it is moreover reset in front
-- of each such call whose call before was not one of them, and at no other time; for the first call
-- the gate says whether the one before was.
pub hear_all-segments :
    (half_duplex : Bool) (g : Gate) (calls : List Heard)
    → (wake_audio (hear_all half_duplex g calls) ≡ awake_audio calls)
      × (wake_part (hear_all false g calls) ≡ segments g.wake_active (keep_if has_samples calls))
hear_all-segments half_duplex g calls = (all_audio half_duplex g calls, all_segments g calls)
