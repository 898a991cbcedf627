-- ===== src/Ask/Ending.antt =====
-- How a run of Ask ends, whatever the rest of the program answers.
use gocalis.Common.{
  sym, ◌≡◌, ◌≢◌, refl, ap, ◌∙◌, subst, Bool, true, false, not, ◌&&◌, ◌||◌, none, List, [], ◌∷◌,
  ◌++◌, arith, inl, inr, ◌⊎◌, Option-cases,
}
use gocalis.Node.{idle, processing}
use gocalis.Ask.{Text, is_empty, Config, Status, success, Result, validate}
use gocalis.Ask.Flow.{
  Effect, acquires, releases, sets_state, adds_session, ends_session, removes_session, transcribes,
  identifies, Outside, Step, returns, goes, then_do, speak_prompt, capture, recognise,
  match_speaker, pose_challenge, hear_challenge, challenge, accept_or_challenge, verify_identity,
  verify_speaker, succeed, turn, run, finish, deferred, Ran, Prompted,
}

abbrev pub every : (Effect → Bool) → List Effect → Bool
every E [] = true
every E (e ∷ es) = E e && every E es

every-append :
    (E : Effect → Bool) (es fs : List Effect) → every E (es ++ fs) ≡ (every E es && every E fs)
every-append E [] fs = refl
every-append E (e ∷ es) fs = ground (arith, every-append E es fs)

-- A step's effects are allowed, its result if it ends the run, and its value if it goes on.
holds : {A : Type 0} → (Effect → Bool) → (Result → Bool) → (A → Bool) → Step A → Bool
holds E Q P (returns es r) = every E es && Q r
holds E Q P (goes es a) = every E es && P a

Step-cases :
    {A : Type 0} (s : Step A)
    → ((es : List Effect) × (r : Result) × (s ≡ returns es r))
      ⊎ ((es : List Effect) × (a : A) × (s ≡ goes es a))
Step-cases (returns es r) = inl (es, r, refl)
Step-cases (goes es a) = inr (es, a, refl)

module _ {A B : Type 0} (E : Effect → Bool) (Q : Result → Bool) (P : A → Bool) (R : B → Bool) where
  holds-prefix :
      (es : List Effect) (t : Step B)
      → every E es ≡ true
      → holds E Q R t ≡ true
      → holds E Q R (then_do (goes es tt) (λ _. t)) ≡ true
  unfolding holds
  holds-prefix es (returns fs r) h k = ground (arith, every-append E es fs)
  holds-prefix es (goes fs b) h k = ground (arith, every-append E es fs)

  holds-then_do :
      (s : Step A) (k : A → Step B)
      → holds E Q P s ≡ true
      → ((a : A) → P a ≡ true → holds E Q R (k a) ≡ true)
      → holds E Q R (then_do s k) ≡ true
  unfolding holds
  holds-then_do (returns es r) k h next = h
  holds-then_do (goes es a) k h next = holds-prefix es (k a) (ground arith) (next a (ground arith))

-- Anything but taking and releasing the node and adding, ending and removing the session.
abbrev pub is_other : Effect → Bool
is_other acquires = false
is_other releases = false
is_other adds_session = false
is_other ends_session = false
is_other removes_session = false
is_other _ = true

-- A run that has the turn: it takes the node, sets it processing and adds its session; whatever it
-- does then leaves the node taken and the session there; at last it ends and removes the session, sets
-- the node idle and releases it.
pub record Releases (effects : List Effect) : Type 0 where
  pub between : List Effect
  pub whole :
      effects
      ≡ acquires
        ∷ sets_state processing
        ∷ adds_session
        ∷ (between ++ (ends_session ∷ removes_session ∷ sets_state idle ∷ releases ∷ []))
  pub quiet : every is_other between ≡ true

abbrev pub is_deaf : Effect → Bool
is_deaf transcribes = false
is_deaf identifies = false
is_deaf _ = true

abbrev is_success : Status → Bool
is_success success = true
is_success _ = false

abbrev anything : {A : Type 0} → A → Bool
anything _ = true

-- A stretch of a run: every step has what is asked of it, so the whole has.
module _ (c : Config) (o : Outside) (E : Effect → Bool) (Q : Result → Bool) where
  challenge-holds :
      (P : Text → Bool)
      → holds E Q (anything {A = Unit}) (pose_challenge c o) ≡ true
      → holds E Q P (hear_challenge c o) ≡ true
      → holds E Q P (challenge c o) ≡ true
  unfolding challenge
  challenge-holds P pose hear =
      holds-then_do E Q (anything {A = Unit}) P (pose_challenge c o) (λ _. hear_challenge c o) pose
        (λ _ _. hear)

  accept-holds :
      (P : Text → Bool) (speaker : Text)
      → holds E Q P (challenge c o) ≡ true
      → (is_empty speaker ≡ false → P speaker ≡ true)
      → holds E Q P (accept_or_challenge c o speaker) ≡ true
  unfolding holds accept_or_challenge
  accept-holds P speaker h k = ground arith

  required-holds :
      (P : Text → Bool)
      → holds E Q P (verify_identity c o) ≡ true
      → (c.require_speaker_id ≡ false → P [] ≡ true)
      → holds E Q P (verify_speaker c o) ≡ true
  unfolding verify_speaker holds
  required-holds P h off = ground arith

  verify_speaker-holds :
      (M P : Text → Bool)
      → holds E Q M (match_speaker o) ≡ true
      → holds E Q P (challenge c o) ≡ true
      → ((s : Text) → M s ≡ true → is_empty s ≡ false → P s ≡ true)
      → (c.require_speaker_id ≡ false → P [] ≡ true)
      → holds E Q P (verify_speaker c o) ≡ true
  unfolding verify_identity
  verify_speaker-holds M P h k accepted off =
      required-holds P
        (holds-then_do E Q M P (match_speaker o) (accept_or_challenge c o) h
          (λ s m. accept-holds P s k (accepted s m)))
        off

  turn-holds :
      (P : Unit → Bool) (T S : Text → Bool) (R : Result → Bool)
      → holds E Q (anything {A = Prompted}) (speak_prompt c o) ≡ true
      → ((p : Prompted) → holds E Q P (capture c o p) ≡ true)
      → (P tt ≡ true → holds E Q T (recognise c o) ≡ true)
      → (P tt ≡ true → holds E Q S (verify_speaker c o) ≡ true)
      → ((text speaker : Text)
          → P tt ≡ true
          → T text ≡ true
          → S speaker ≡ true
          → holds E Q R (succeed c o text speaker) ≡ true)
      → holds E Q R (turn c o) ≡ true
  unfolding turn
  turn-holds P T S R spoken heard known verified ended =
      holds-then_do E Q (anything {A = Prompted}) R (speak_prompt c o) _ spoken (λ p _.
        holds-then_do E Q P R (capture c o p) _ (heard p) (λ _ ok.
          holds-then_do E Q T R (recognise c o) _ (known ok) (λ text t.
            holds-then_do E Q S R (verify_speaker c o) _ (verified ok)
              (λ speaker s. ended text speaker ok t s))))

run_result : Step Result → Ran
run_result (returns es r) = finish es r
run_result (goes es r) = finish es r

module _ (c : Config) (o : Outside) where
  challenge-keeps : holds is_other anything (anything {A = Text}) (challenge c o) ≡ true
  unfolding holds pose_challenge hear_challenge
  challenge-keeps = challenge-holds c o is_other anything anything (ground arith) (ground arith)

  verify_speaker-keeps : holds is_other anything (anything {A = Text}) (verify_speaker c o) ≡ true
  unfolding holds match_speaker
  verify_speaker-keeps =
      verify_speaker-holds c o is_other anything anything anything (ground arith) challenge-keeps
        (λ _ _ _. refl) (λ _. refl)

  turn-keeps : holds is_other anything (anything {A = Result}) (turn c o) ≡ true
  unfolding holds speak_prompt capture recognise succeed
  turn-keeps =
      turn-holds c o is_other anything anything anything anything anything (ground arith)
        (λ p. ground arith) (λ _. ground arith) (λ _. verify_speaker-keeps) (λ _ _ _ _ _. refl)

  run-turn : validate c ≡ none → o.acquired ≡ none → run c o ≡ run_result (turn c o)
  unfolding run run_result
  run-turn valid free = elim (Step-cases (turn c o)) [
    | inl (es, r, e) ↦ ground arith
    | inr (es, r, e) ↦ ground arith
  ]

  returned-keeps :
      (t : Step Result)
      → holds is_other anything (anything {A = Result}) t ≡ true
      → Releases (run_result t).effects
  unfolding run_result holds
  returned-keeps (returns es r) h = record { between = es; whole = refl; quiet = ground arith }
  returned-keeps (goes es r) h = record { between = es; whole = refl; quiet = ground arith }

  -- A valid run that gets the node takes it, sets it processing and adds its session first. It ends,
  -- whatever happens in between, by ending and removing its session, setting the node idle and
  -- releasing it, in this order. In between it neither takes nor releases the node and neither adds,
  -- ends nor removes a session.
  pub run-Releases : validate c ≡ none → o.acquired ≡ none → Releases (run c o).effects
  run-Releases valid free =
      subst (λ ran. Releases ran.effects) (sym (run-turn valid free))
        (returned-keeps (turn c o) turn-keeps)

-- The result of a run that is a success is heard and, where it must be, verified.
is_sound : Config → Result → Bool
is_sound c r =
    not (is_success r.status)
    || (not (is_empty r.audio) && (not c.require_speaker_id || not (is_empty r.speaker)))

module _ (c : Config) (o : Outside) where
  abbrev is_heard : Unit {0} → Bool
  is_heard _ = not (is_empty o.captured)

  abbrev is_known : Text → Bool
  is_known speaker = not c.require_speaker_id || not (is_empty speaker)

  challenge-verifies : holds anything (is_sound c) is_known (challenge c o) ≡ true
  unfolding holds pose_challenge hear_challenge is_sound
  challenge-verifies =
      challenge-holds c o anything (is_sound c) is_known (ground arith) (ground arith)

  verify_speaker-verifies : holds anything (is_sound c) is_known (verify_speaker c o) ≡ true
  unfolding holds match_speaker
  verify_speaker-verifies =
      verify_speaker-holds c o anything (is_sound c) anything is_known (ground arith)
        challenge-verifies (λ s _ e. ground arith) (λ e. ground arith)

  turn-verifies : holds anything (is_sound c) (is_sound c) (turn c o) ≡ true
  unfolding holds speak_prompt capture recognise succeed is_sound
  turn-verifies =
      turn-holds c o anything (is_sound c) is_heard anything is_known (is_sound c) (ground arith)
        (λ p. ground arith) (λ _. ground arith) (λ _. verify_speaker-verifies)
        (λ text speaker h t k. ground arith)

  result-IsSound :
      (t : Step Result)
      → holds anything (is_sound c) (is_sound c) t ≡ true
      → is_sound c (run_result t).result ≡ true
  unfolding run_result holds
  result-IsSound (returns es r) h = ground arith
  result-IsSound (goes es r) h = ground arith

  run-IsSound : is_sound c (run c o).result ≡ true
  unfolding run is_sound
  run-IsSound = elim (Option-cases (validate c)) [
    | inr (m, e) ↦ ground arith
    | inl e ↦ elim (Option-cases o.acquired) [
      | inr (err, f) ↦ ground arith
      | inl f ↦
          ap (λ ran. is_sound c ran.result) (run-turn c o e f)
          ∙ result-IsSound (turn c o) turn-verifies
    ]
  ]

  -- A run that comes to success has heard speech, and where the caller requires the speaker to be
  -- known it names one.
  pub run_verifies :
      (run c o).result.status ≡ success
      → ((run c o).result.audio ≢ [])
        × (c.require_speaker_id ≡ true → (run c o).result.speaker ≢ [])
  unfolding is_sound
  run_verifies h = ground (arith, run-IsSound)

-- Nothing heard, nothing recognised.
module _ (c : Config) (o : Outside) (silent : o.captured ≡ []) where
  turn-deaf :
      holds is_deaf (λ r. not (is_success r.status)) (λ (r : Result). false) (turn c o) ≡ true
  unfolding holds speak_prompt capture
  turn-deaf =
      turn-holds c o is_deaf (λ r. not (is_success r.status)) (λ _. false) anything anything
        (λ _. false) (ground arith) (λ p. ground arith) (λ h. absurd (ground (arith, h)))
        (λ h. absurd (ground (arith, h))) (λ _ _ h _ _. absurd (ground (arith, h)))

  result-deaf :
      (t : Step Result)
      → holds is_deaf (λ r. not (is_success r.status)) (λ (r : Result). false) t ≡ true
      → (every is_deaf (run_result t).effects ≡ true)
        × (is_success (run_result t).result.status ≡ false)
  unfolding run_result holds
  result-deaf (returns es r) h = ground (arith, every-append is_deaf es deferred)
  result-deaf (goes es r) h = ground (arith, every-append is_deaf es deferred)

  run-deaf : (every is_deaf (run c o).effects ≡ true) × (is_success (run c o).result.status ≡ false)
  unfolding run
  run-deaf = elim (Option-cases (validate c)) [
    | inr (m, e) ↦ ground arith
    | inl e ↦ elim (Option-cases o.acquired) [
      | inr (err, f) ↦ ground arith
      | inl f ↦
          subst (λ ran. (every is_deaf ran.effects ≡ true) × (is_success ran.result.status ≡ false))
            (sym (run-turn c o e f)) (result-deaf (turn c o) turn-deaf)
    ]
  ]

  -- A run in which nothing was captured neither transcribes nor identifies anything and is no success.
  pub run_silent : (every is_deaf (run c o).effects ≡ true) × ((run c o).result.status ≢ success)
  run_silent = (run-deaf.0, ground (arith, run-deaf.1))
