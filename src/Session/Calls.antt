-- ===== src/Session/Calls.antt =====
-- Histories of calls on one session, by the ask flow and by the audio path.
use gocalis.Common.{ℕ, ◌≡◌, refl, Bool, List, [], ◌∷◌, arith}
use gocalis.Session.{
  Session, State, Fed, fed, blocked, panicked, new, set_state, arm_barge_in, disarm_barge_in,
  start_capture, stop_capture, feed_pcm, receive,
}
use gocalis.Session.Total.{IsValid, feed_pcm_total}

pub data Call (A : Type 0) : Type 0 where
  sets_state : State → Call A
  arms disarms starts_capture stops_capture receives : Call A
  feeds : List A → Bool → ℕ → Call A

module _ {A : Type 0} where
  unfoldable pub call : Session A → Call A → Fed A
  call s (sets_state st) = fed (set_state s st)
  call s arms = fed (arm_barge_in s)
  call s disarms = fed (disarm_barge_in s).0
  call s starts_capture = fed (start_capture s)
  call s stops_capture = fed (stop_capture s).0
  call s receives = fed (receive s)
  call s (feeds samples speech now) = feed_pcm s samples speech now

  unfoldable pub and_then : Fed A → (Session A → Fed A) → Fed A
  and_then (fed s) f = f s
  and_then blocked f = blocked
  and_then panicked f = panicked

  unfoldable pub calls : Session A → List (Call A) → Fed A
  unfolding and_then call
  calls s [] = fed s
  calls s (c ∷ cs) = and_then (call s c) (λ t. calls t cs)

  call_total :
      (s : Session A) (c : Call A) → IsValid s → (s' : Session A) × (call s c ≡ fed s') × IsValid s'
  unfolding call set_state arm_barge_in disarm_barge_in start_capture stop_capture receive
  call_total s (sets_state st) v = (set_state s st, refl, ground arith)
  call_total s arms v = (arm_barge_in s, refl, ground arith)
  call_total s disarms v = ((disarm_barge_in s).0, refl, ground arith)
  call_total s starts_capture v = (start_capture s, refl, ground arith)
  call_total s stops_capture v = ((stop_capture s).0, refl, ground arith)
  call_total s receives v = (receive s, refl, ground arith)
  call_total s (feeds samples speech now) v = feed_pcm_total s samples speech now v

  calls_total :
      (s : Session A) (cs : List (Call A))
      → IsValid s
      → (s' : Session A) × (calls s cs ≡ fed s') × IsValid s'
  unfolding calls and_then
  calls_total s [] v = (s, refl, v)
  calls_total s (c ∷ cs) v =
      let (t, e, w) = call_total s c v in let (u, k, x) = calls_total t cs w in (u, rw e k, x)

  pub new-IsValid : (id node_id : ℕ) → IsValid {A = A} (new id node_id)
  unfolding new
  new-IsValid id node_id = ground arith

  -- No history of a new session blocks or panics, and each leaves the capture buffer within 120
  -- seconds of samples and the pre-roll within a quarter of a second.
  pub calls-new_total :
      (id node_id : ℕ) (cs : List (Call A))
      → (s : Session A) × (calls (new id node_id) cs ≡ fed s) × IsValid s
  calls-new_total id node_id cs = calls_total (new id node_id) cs (new-IsValid id node_id)
