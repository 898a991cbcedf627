-- ===== src/Runtime/Turns.antt =====
-- One wake turn runs at a time, and each raises one event.
use gocalis.Common.{
  ℕ, suc, ◌+◌, ◌≡◌, refl, ap, arith, ◌==◌, Bool, not, List, [], ◌∷◌, ◌++◌, if◌then◌else◌, if_both,
  if_cases,
}
use gocalis.Node.{NodeState, idle}
use gocalis.Ask.{Result}
use gocalis.Runtime.{same_state, is_empty}
use gocalis.Runtime.Wake.{
  WakeConfig, WakeEffect, publishes, asks, speaks, reply_text, wake_turn, Wake, on_keyword,
  end_turn, Event, keyword_found, turn_ends, step, run, no_wake,
}

abbrev pub published : List WakeEffect → ℕ
published [] = 0
published (publishes e ∷ es) = suc (published es)
published (asks t ∷ es) = published es
published (speaks t ∷ es) = published es

published-append : (xs ys : List WakeEffect) → published (xs ++ ys) ≡ published xs + published ys
published-append [] ys = omega arith
published-append (publishes e ∷ xs) ys = omega (arith, published-append xs ys)
published-append (asks t ∷ xs) ys = omega (arith, published-append xs ys)
published-append (speaks t ∷ xs) ys = omega (arith, published-append xs ys)

published-wake_turn :
    (cfg : WakeConfig) (keyword : List ℕ) (result : Result)
    → published (wake_turn cfg keyword result) ≡ 1
unfolding wake_turn
published-wake_turn cfg keyword result =
    let spoken : published (
          if is_empty (reply_text cfg.wake_responses)
          then []
          else speaks (reply_text cfg.wake_responses) ∷ [])
        ≡ 0 =
      if_both (λ (es : List WakeEffect). published es ≡ 0)
        (is_empty (reply_text cfg.wake_responses)) refl refl in
    if_both (λ (es : List WakeEffect). published es ≡ 1) cfg.auto_ask refl (ap (λ n. suc n) spoken)

-- At most one turn runs, and it is pending; each turn that was started has raised one event.
pub record IsSingle (w : Wake) : Type 0 where
  pub single : w.turns ≡ (if w.wake_pending then 1 else 0)
  pub raised : published w.effects ≡ w.over + w.turns

module _ (cfg : WakeConfig) where
  found-IsSingle :
      (w : Wake) (starts : Bool) (state : NodeState) (keyword : List ℕ) (result : Result)
      → IsSingle w
      → IsSingle (on_keyword cfg w starts state keyword result)
  unfolding on_keyword
  found-IsSingle w starts state keyword result v = if_both IsSingle (not starts) v (
      if_both IsSingle (not (same_state state idle)) v (
        if_cases IsSingle w.wake_pending (λ _. v)
          (λ free. record {
            single = ground (arith, free, v.single);
            raised = omega (
              arith,
              v.raised,
              published-append w.effects (wake_turn cfg keyword result),
              published-wake_turn cfg keyword result,
            );
          })))

  end-IsSingle : (w : Wake) → IsSingle w → IsSingle (end_turn w)
  unfolding end_turn
  end-IsSingle w v =
      if_cases IsSingle (w.turns == 0) (λ _. v)
        (λ one. record {
          single = ground (arith, one, v.single);
          raised = ground (arith, one, v.raised);
        })

  run-IsSingle : (w : Wake) (es : List Event) → IsSingle w → IsSingle (run cfg w es)
  unfolding run step
  run-IsSingle w [] v = v
  run-IsSingle w (keyword_found starts state keyword result ∷ es) v =
      run-IsSingle (on_keyword cfg w starts state keyword result) es
        (found-IsSingle w starts state keyword result v)
  run-IsSingle w (turn_ends ∷ es) v = run-IsSingle (end_turn w) es (end-IsSingle w v)

  -- In every history of wake words and ends of turns, at most one wake turn runs, it runs exactly where
  -- one is pending, and each turn that was started raises one wake event.
  pub turns-IsSingle : (es : List Event) → IsSingle (run cfg no_wake es)
  unfolding no_wake
  turns-IsSingle es = run-IsSingle no_wake es (record { single = refl; raised = refl })
