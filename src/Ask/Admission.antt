-- ===== src/Ask/Admission.antt =====
-- internal/ask/ask.go: what Validate lets through, and how long waitForEndpoint waits.
use gocalis.Common.{
  ℕ, ◌+◌, ◌*◌, ◌≤◌, ◌≡◌, ◌≢◌, refl, ap, Bool, true, ◌||◌, Option, none, some, List, [], ◌∷◌, ◌++◌,
  if◌then◌else◌, arith, leb, length, inl, inr, Option-cases, pos, negsuc, Bool-cases, ◌-◌,
}
use gocalis.Ask.{
  is_empty, is_all, all_nodes, Seconds, not_a_number, infinite, nanoseconds, Config, is_within,
  validate, max_text_bytes, max_audio_seconds, second,
}

-- A time of at most that many seconds, and not a negative one.
pub IsTime : Seconds → ℕ → Type 0
IsTime s limit = (n : ℕ) × (s ≡ nanoseconds (pos n)) × (n ≤ limit * second)

is_within-IsTime : (s : Seconds) (limit : ℕ) → is_within s limit ≡ true → IsTime s limit
unfolding IsTime
is_within-IsTime not_a_number limit h = absurd (ground arith)
is_within-IsTime infinite limit h = absurd (ground arith)
is_within-IsTime (nanoseconds (negsuc n)) limit h = absurd (ground arith)
is_within-IsTime (nanoseconds (pos n)) limit h = (n, refl, ground arith)

pub record IsBounded (c : Config) : Type 0 where
  pub named : c.node_id ≢ []
  pub single : c.node_id ≢ all_nodes
  pub short : length c.tts_text ≤ max_text_bytes
  pub onset : IsTime c.vad_timeout max_audio_seconds
  pub delay : IsTime c.capture_delay 20
  pub silence : IsTime c.post_speech_silence 20

-- A configuration that passes Validate names one node, and its prompt and its times are bounded.
pub validate-IsBounded : (c : Config) → validate c ≡ none → IsBounded c
unfolding validate
validate-IsBounded c h = record {
  named = λ e. ground (arith, ap is_empty e);
  single = λ e. ground (arith, ap is_all e);
  short = ground arith;
  onset = is_within-IsTime c.vad_timeout max_audio_seconds (ground arith);
  delay = is_within-IsTime c.capture_delay 20 (ground arith);
  silence = is_within-IsTime c.post_speech_silence 20 (ground arith);
}

-- What a pass of waitForEndpoint's loop sees: the time, the session's first and last speech, and
-- whether the context is done by the time of the next tick.
pub record Tick : Type 0 where
  pub now : ℕ
  pub speech : Option (ℕ × ℕ)
  pub is_done : Bool

-- The tests of a pass. `now` is not before the times that the session has noted.
abbrev pub is_over : ℕ → ℕ → ℕ → Tick → Bool
is_over opened onset silence t = elim t.speech [
  | none ↦ leb onset (t.now - opened)
  | some (started, last) ↦
      leb silence (t.now - last) || leb (max_audio_seconds * second) (t.now - started)
]

-- waitForEndpoint over the passes that its ticker grants: the time at which it returns, or `none` if it still waits.
pub wait_for_endpoint : ℕ → ℕ → ℕ → List Tick → Option ℕ
wait_for_endpoint opened onset silence [] = none
wait_for_endpoint opened onset silence (t ∷ ticks) =
    let later = wait_for_endpoint opened onset silence ticks in
    if is_over opened onset silence t || t.is_done then some t.now else later

unfoldable pub NotAfter : ℕ → List Tick → Type 0
NotAfter time [] = Unit
NotAfter time (t ∷ ticks) = (t.now ≤ time) × NotAfter time ticks

-- Nobody has spoken for the onset time, or the turn has been spoken for the longest time.
pub record IsOverdue (opened onset : ℕ) (t : Tick) : Type 0 where
  pub unspoken : t.speech ≡ none → opened + onset ≤ t.now
  pub spoken :
      (started last : ℕ)
      → t.speech ≡ some (started, last)
      → started + max_audio_seconds * second ≤ t.now

IsOverdue-over :
    (opened onset silence : ℕ) (t : Tick)
    → IsOverdue opened onset t
    → is_over opened onset silence t ≡ true
IsOverdue-over opened onset silence t h = elim (Option-cases t.speech) [
  | inl e ↦ ground (arith, h.unspoken e)
  | inr ((started, last), e) ↦ ground (arith, h.spoken started last e)
]

-- Whatever the passes before have seen, the wait returns by the first pass that finds the onset time
-- over without speech, or the longest turn over, and at the latest at the time of that pass.
pub wait_for_endpoint-bounded :
    (opened onset silence : ℕ) (before rest : List Tick) (t : Tick)
    → NotAfter t.now before
    → IsOverdue opened onset t
    → (time : ℕ) × (wait_for_endpoint opened onset silence (before ++ t ∷ rest) ≡ some time)
      × (time ≤ t.now)
unfolding wait_for_endpoint NotAfter
wait_for_endpoint-bounded opened onset silence [] rest t early h =
    (t.now, ground (arith, IsOverdue-over opened onset silence t h), omega arith)
wait_for_endpoint-bounded opened onset silence (b ∷ before) rest t early h =
    let (time, e, le) = wait_for_endpoint-bounded opened onset silence before rest t early.1 h in
    elim (Bool-cases (is_over opened onset silence b || b.is_done)) [
      | inl over ↦ (b.now, rw over refl, early.0)
      | inr on ↦ (time, rw on e, le)
    ]
