-- ===== src/Config/Accepted.antt =====
-- A configuration that is accepted is within its bounds, and normalizing it again changes nothing.
use gocalis.Common.{
  ℕ, ◌≡◌, refl, ap, ◌∙◌, sym, subst, Bool, true, false, ◌||◌, Option, none, some, List, [], ◌∷◌,
  ◌++◌, map, if◌then◌else◌, ℤ, All, arith, Bool-cases, inl, inr,
}
use gocalis.Config.{Text, Floats, Url, ConfigError, is_empty, any, KwsConfig, NodeConfig, Config}
use gocalis.Config.Checks.{
  Checks, first_error, is_zero, is_local, or_literal, or_int, fill_kws, fill_node, fill, checks,
  accepted, rejected, judged, normalize,
}

pub first_error-cons :
    (bad : Bool) (e : ConfigError) (checks : Checks)
    → first_error ((bad, e) ∷ checks) ≡ none
    → (bad ≡ false) × (first_error checks ≡ none)
unfolding first_error
first_error-cons true e checks h = absurd (ground (arith, h))
first_error-cons false e checks h = (refl, h)

pub first_error-append :
    (xs ys : Checks)
    → first_error (xs ++ ys) ≡ none
    → (first_error xs ≡ none) × (first_error ys ≡ none)
unfolding first_error
first_error-append [] ys h = (refl, h)
first_error-append ((true, e) ∷ xs) ys h = absurd (ground (arith, h))
first_error-append ((false, e) ∷ xs) ys h = first_error-append xs ys h

pub any-false :
    {A : Type 0} (p : A → Bool) (xs : List A) → any p xs ≡ false → All (λ x. p x ≡ false) xs
any-false p [] h = tt
any-false p (x ∷ xs) h = (ground (arith, h), any-false p xs (ground (arith, h)))

pub or_false : (a b : Bool) → (a || b) ≡ false → (a ≡ false) × (b ≡ false)
or_false false b h = (refl, h)
or_false true b h = absurd (ground (arith, h))

module _ (F : Floats) (trim : Text → Text) (parse_url : Text → Option Url) where
  or_int-twice :
      (x : ℤ) (n : ℕ)
      → or_int F trim parse_url (or_int F trim parse_url x n) n ≡ or_int F trim parse_url x n
  or_int-twice x n = elim (Bool-cases (is_zero x)) [
    | inl zero ↦ rw zero (ground arith)
    | inr full ↦ rw full (rw full refl)
  ]

  or_literal-twice :
      (x : F.Num) (n : ℕ)
      → or_literal F trim parse_url (or_literal F trim parse_url x n) n
        ≡ or_literal F trim parse_url x n
  or_literal-twice x n = elim (Bool-cases (F.is_zero x)) [
    | inl zero ↦ rw zero (rw (F.nonzero n) refl)
    | inr full ↦ rw full (rw full refl)
  ]

  language-twice :
      (x other : Text)
      → is_empty other ≡ false
      → (if is_empty (if is_empty x then other else x)
          then other
          else (if is_empty x then other else x))
        ≡ (if is_empty x then other else x)
  language-twice [] other h = rw h refl
  language-twice (x ∷ xs) other h = refl

  -- A default that stands under a test.
  tested-twice :
      {A : Type 0} (test : Bool) (f : A → A) (x : A)
      → f (f x) ≡ f x
      → (if test then f (if test then f x else x) else (if test then f x else x))
        ≡ (if test then f x else x)
  tested-twice true f x h = h
  tested-twice false f x h = refl

  fill_kws-twice :
      (k : KwsConfig F.Num)
      → fill_kws F trim parse_url (fill_kws F trim parse_url k) ≡ fill_kws F trim parse_url k
  unfolding fill_kws
  fill_kws-twice k = λ i. record k {
    threshold =
        tested-twice k.enabled (λ x. or_literal F trim parse_url x 249) k.threshold
          (or_literal-twice k.threshold 249) i;
  }

  fill_node-twice :
      (n : NodeConfig F.Num)
      → fill_node F trim parse_url (fill_node F trim parse_url n) ≡ fill_node F trim parse_url n
  unfolding fill_node
  fill_node-twice n = λ i. record n {
    sample_rate =
        tested-twice (is_local n.type) (λ x. or_int F trim parse_url x 15999) n.sample_rate
          (or_int-twice n.sample_rate 15999) i;
    gain =
        tested-twice (is_local n.type) (λ x. or_literal F trim parse_url x 999) n.gain
          (or_literal-twice n.gain 999) i;
    kws = fill_kws-twice n.kws i;
  }

  map-twice :
      (nodes : List (NodeConfig F.Num))
      → map (fill_node F trim parse_url) (map (fill_node F trim parse_url) nodes)
        ≡ map (fill_node F trim parse_url) nodes
  map-twice [] = refl
  map-twice (n ∷ nodes) = λ i. fill_node-twice n i ∷ map-twice nodes i

  fill-twice :
      (c : Config F.Num) → fill F trim parse_url (fill F trim parse_url c) ≡ fill F trim parse_url c
  unfolding fill
  fill-twice c = λ i. record c {
    global_num_threads = or_int-twice c.global_num_threads 3 i;
    language = language-twice c.language (101 ∷ 115 ∷ []) refl i;
    vad_threshold = or_literal-twice c.vad_threshold 499 i;
    min_silence_ms = or_int-twice c.min_silence_ms 699 i;
    speed = or_literal-twice c.speed 999 i;
    nodes = map-twice c.nodes i;
  }

  judged-accepted :
      (c c' : Config F.Num) (o : Option ConfigError)
      → judged F trim parse_url c o ≡ accepted c'
      → (c ≡ c') × (o ≡ none)
  judged-accepted c c' none h = (ap (λ r. elim r [ accepted d ↦ d | rejected e ↦ c ]) h, refl)
  judged-accepted c c' (some e) h = absurd (ground (arith, h))

  pub accepted-checks :
      (c c' : Config F.Num)
      → normalize F trim parse_url c ≡ accepted c'
      → (fill F trim parse_url c ≡ c') × (first_error (checks F trim parse_url c') ≡ none)
  unfolding normalize
  accepted-checks c c' h =
      let (e, n) =
        judged-accepted (fill F trim parse_url c) c'
          (first_error (checks F trim parse_url (fill F trim parse_url c))) h in
      (e, subst (λ d. first_error (checks F trim parse_url d) ≡ none) e n)

  -- A configuration that was accepted is accepted again, and normalizing it changes nothing.
  pub normalize-normalize :
      (c c' : Config F.Num)
      → normalize F trim parse_url c ≡ accepted c'
      → normalize F trim parse_url c' ≡ accepted c'
  unfolding normalize
  normalize-normalize c c' h =
      let (e, n) = accepted-checks c c' h in
      let fixed : fill F trim parse_url c' ≡ c' =
        ap (fill F trim parse_url) (sym e) ∙ fill-twice c ∙ e in
      ap (λ d. judged F trim parse_url d (first_error (checks F trim parse_url d))) fixed
      ∙ ap (judged F trim parse_url c') n
