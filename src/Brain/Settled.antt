-- ===== src/Brain/Settled.antt =====
-- What the brain's calls leave behind on a node.
use gocalis.Common.{
  ℕ, ◌≡◌, refl, Bool, true, false, Option, none, some, List, [], ◌∷◌, if◌then◌else◌, arith,
}
use gocalis.Node.{NodeState, idle}
use gocalis.Brain.{
  Effect, acquires, releases, synthesizes, sets_state, plays, streams, Handle, Outcome,
  speak_to_handle, play_samples_to_handle, with_turn, speak, play_samples, play_all,
}

-- A node in the eyes of the calls: its state, whether the caller holds its turn, and whether it has
-- been touched without one.
pub record Seen : Type 0 where
  pub state : NodeState
  pub held : Bool
  pub touched : Bool

abbrev pub untouched : Seen
untouched = record { state = idle; held = false; touched = false }

unfoldable pub see : Seen → Effect → Seen
see n acquires = record n { held = true; touched = if n.held then true else n.touched }
see n releases = record n { held = false }
see n synthesizes = n
see n (sets_state s) = record n { state = s; touched = if n.held then n.touched else true }
see n (plays gain) = record n { touched = if n.held then n.touched else true }
see n (streams gain) = record n { touched = if n.held then n.touched else true }

unfoldable pub see_all : Seen → List Effect → Seen
see_all n [] = n
see_all n (e ∷ es) = see_all (see n e) es

speak-settled :
    (h : Option Handle) (is_blank : Bool) → see_all untouched (speak h is_blank).0 ≡ untouched
unfolding see see_all speak with_turn speak_to_handle
speak-settled none is_blank = refl
speak-settled (some h) is_blank = ground arith

played-settled :
    (h : Handle) (samples : List ℕ)
    → see_all untouched (with_turn h (play_samples_to_handle h samples)).0 ≡ untouched
unfolding see see_all with_turn play_samples_to_handle
played-settled h samples = ground arith

play_samples-settled :
    (h : Option Handle) (samples : List ℕ) (rate : ℕ)
    → see_all untouched (play_samples h samples rate).0 ≡ untouched
unfolding see_all play_samples
play_samples-settled none samples rate = refl
play_samples-settled (some h) samples rate = ground (arith, played-settled h samples)

unfoldable pub AllSettled : List Outcome → Type 0
AllSettled [] = Unit
AllSettled (o ∷ os) = (see_all untouched o.0 ≡ untouched) × AllSettled os

play_all-AllSettled :
    (handles : List Handle) (samples : List ℕ) → AllSettled (play_all handles samples)
unfolding AllSettled play_all
play_all-AllSettled [] samples = tt
play_all-AllSettled (h ∷ handles) samples =
    (played-settled h samples, play_all-AllSettled handles samples)

-- Speak, PlaySamples and, on each node of a broadcast, playAll touch a node only while they hold its
-- turn, whatever the queue, the synthesis and the transport answer, and leave it idle and released.
pub calls_settle :
    (h : Option Handle) (handles : List Handle) (is_blank : Bool) (samples : List ℕ) (rate : ℕ)
    → (see_all untouched (speak h is_blank).0 ≡ untouched)
      × (see_all untouched (play_samples h samples rate).0 ≡ untouched)
      × AllSettled (play_all handles samples)
calls_settle h handles is_blank samples rate = (
  speak-settled h is_blank,
  play_samples-settled h samples rate,
  play_all-AllSettled handles samples,
)
