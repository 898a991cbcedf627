-- ===== src/Resample/Whole.antt =====
-- What the chunks of a stream come to: the resampling of the whole clip.
use gocalis.Common.{
  ℕ, zero, suc, ◌+◌, ◌-◌, ◌*◌, ◌/◌, ◌%◌, ◌≤◌, ◌<◌, ◌≡◌, refl, ap, ◌∙◌, sym, subst, Bool, true,
  false, not, ◌&&◌, some, List, [], ◌∷◌, ◌++◌, if◌then◌else◌, length, length-append, drop,
  get_elem?, get_or, arith, ltb, leb, ℕ_discrete, Bool-cases, inl, inr, get_elem?-drop,
  get_elem?-lt, get_elem?-ge, get_or-append,
}
use gocalis.Resample.{PcmResampler, position, limit, prepend, value_at, between, emit_loop}
use gocalis.Resample.Position.{div_mono, position-lt-total}

module _ (lerp : ℕ → ℕ → ℕ → ℕ → ℕ) (src dst : ℕ) where
  -- An output sample of a whole clip: between its two neighbours, or the last input sample.
  unfoldable pub point : List ℕ → ℕ → ℕ
  point xs k =
      let i = k * src / dst in
      if ltb (i + 1) (length xs)
      then lerp (get_or xs i 0) (get_or xs (i + 1) 0) (k * src % dst) dst
      else get_or xs i 0

  -- The output samples from a number on.
  unfoldable pub points : List ℕ → ℕ → ℕ → List ℕ
  points xs from zero = []
  points xs from (suc n) = point xs from ∷ points xs (from + 1) n

  unfoldable pub whole_clip : List ℕ → List ℕ
  whole_clip xs = points xs 0 (length xs * dst / src)

  pub points-append :
      (xs : List ℕ) (from n m : ℕ)
      → points xs from n ++ points xs (from + n) m ≡ points xs from (n + m)
  unfolding points
  points-append xs from zero m = ground arith
  points-append xs from (suc n) m =
      let here : from + suc n ≡ from + 1 + n = omega arith in
      let there : suc n + m ≡ suc (n + m) = omega arith in
      ap (λ i. point xs from ∷ (points xs (from + 1) n ++ points xs i m)) here
      ∙ ap (λ l. point xs from ∷ l) (points-append xs (from + 1) n m)
      ∙ ap (λ i. points xs from i) (sym there)

  point_stable :
      (xs ys : List ℕ) (k : ℕ) → k * src / dst + 1 < length xs → point (xs ++ ys) k ≡ point xs k
  unfolding point
  point_stable xs ys k h = ground (
    arith,
    length-append xs ys,
    get_or-append (k * src / dst) xs ys 0,
    get_or-append (k * src / dst + 1) xs ys 0,
  )

  -- The samples whose two neighbours are known do not change when more input comes.
  pub points_stable :
      (xs ys : List ℕ) (from n : ℕ)
      → ((k : ℕ) → k < from + n → k * src / dst + 1 < length xs)
      → points (xs ++ ys) from n ≡ points xs from n
  unfolding points
  points_stable xs ys from zero h = refl
  points_stable xs ys from (suc n) h =
      ap (λ p. p ∷ points (xs ++ ys) (from + 1) n) (point_stable xs ys from (h from (omega arith)))
      ∙ ap (λ l. point xs from ∷ l) (points_stable xs ys (from + 1) n (λ k lt. h k (omega arith)))

  -- The resampler that has read a list, dropped it up to a base and emitted so many samples.
  abbrev pub state : List ℕ → ℕ → ℕ → PcmResampler
  state xs base output = record {
    src = src;
    dst = dst;
    input = drop base xs;
    base = base;
    total = length xs;
    output = output;
  }

  next_of :
      (xs : List ℕ) (base p : ℕ)
      → base ≤ p
      → get_elem? (drop base xs) (p - base + 1) ≡ get_elem? xs (p + 1)
  next_of xs base p le =
      let e : p - base + 1 ≡ p + 1 - base = omega arith in
      ap (λ i. get_elem? (drop base xs) i) e ∙ get_elem?-drop base (p + 1) xs (omega arith)

  value_at-point :
      (xs : List ℕ) (base output o : ℕ)
      → base ≤ o * src / dst
      → o * src / dst < length xs
      → value_at lerp (state xs base output) o ≡ some (point xs o)
  unfolding value_at position point
  value_at-point xs base output o le lt =
      let p = o * src / dst in
      let here : get_elem? (drop base xs) (p - base) ≡ some (get_or xs p 0) =
        get_elem?-drop base p xs le ∙ get_elem?-lt p xs 0 lt in
      ap (λ x. between lerp x (get_elem? (drop base xs) (p - base + 1)) (o * src % dst) dst) here
      ∙ elim (Bool-cases (ltb (p + 1) (length xs))) [
        | inl within ↦
            ap (λ y. between lerp (some (get_or xs p 0)) y (o * src % dst) dst)
              (next_of xs base p le ∙ get_elem?-lt (p + 1) xs 0 (ground (arith, within)))
            ∙ rw within refl
        | inr last ↦
            ap (λ y. between lerp (some (get_or xs p 0)) y (o * src % dst) dst)
              (next_of xs base p le ∙ get_elem?-ge (p + 1) xs (ground (arith, last)))
            ∙ rw last refl
      ]

  -- What the loop has come to: it has emitted so many samples and stands before the next one.
  pub record Emits (final : Bool) (xs : List ℕ) (base output fuel from n : ℕ) : Type 0 where
    pub emitted :
        emit_loop lerp fuel final (state xs base output) from ≡ some (points xs from n, from + n)
    pub due : from + n ≤ length xs * dst / src
    pub known : final ≡ false → (k : ℕ) → from ≤ k → k < from + n → k * src / dst + 1 < length xs
    pub ended :
        final ≡ true → length xs * dst / src ≤ from + fuel → from + n ≡ length xs * dst / src

  loop_stop :
      (final : Bool) (xs : List ℕ) (base output fuel from : ℕ)
      → ltb from (length xs * dst / src) ≡ false
      → emit_loop lerp (suc fuel) final (state xs base output) from ≡ some ([], from)
  unfolding emit_loop limit position
  loop_stop final xs base output fuel from stop = rw stop refl

  loop_short :
      (final : Bool) (xs : List ℕ) (base output fuel from : ℕ)
      → ltb from (length xs * dst / src) ≡ true
      → (not final && leb (length xs) (from * src / dst + 1)) ≡ true
      → emit_loop lerp (suc fuel) final (state xs base output) from ≡ some ([], from)
  unfolding emit_loop limit position
  loop_short final xs base output fuel from more short = rw (more, short) refl

  loop_step :
      (final : Bool) (xs : List ℕ) (base output fuel from v : ℕ)
      → ltb from (length xs * dst / src) ≡ true
      → (not final && leb (length xs) (from * src / dst + 1)) ≡ false
      → value_at lerp (state xs base output) from ≡ some v
      → emit_loop lerp (suc fuel) final (state xs base output) from
        ≡ prepend v (emit_loop lerp fuel final (state xs base output) (from + 1))
  unfolding emit_loop limit position
  loop_step final xs base output fuel from v more on e = rw (more, on, e) refl

  module _ (positive : (0 < src) × (0 < dst)) where
    -- A stop, with nothing emitted.
    Emits-nothing :
        (final : Bool) (xs : List ℕ) (base output fuel from : ℕ)
        → emit_loop lerp fuel final (state xs base output) from ≡ some ([], from)
        → from ≤ length xs * dst / src
        → (final ≡ true → length xs * dst / src ≤ from + fuel → from ≡ length xs * dst / src)
        → (n : ℕ) × Emits final xs base output fuel from n
    unfolding points
    Emits-nothing final xs base output fuel from e due end = (
      0,
      record {
        emitted = e ∙ ap (λ o. some ([], o)) (omega arith);
        due = omega arith;
        known = λ _ k a b. absurd (omega (arith, a, b));
        ended = λ f h. omega (arith, end f h);
      },
    )

    known_at :
        (final : Bool) (xs : List ℕ) (from k : ℕ)
        → (not final && leb (length xs) (from * src / dst + 1)) ≡ false
        → final ≡ false
        → from ≡ k
        → k * src / dst + 1 < length xs
    known_at final xs from k on f e = subst (λ i. i * src / dst + 1 < length xs) e (ground arith)

    -- One round, and what the later ones have come to.
    Emits-more :
        (final : Bool) (xs : List ℕ) (base output fuel from n : ℕ)
        → base ≤ from * src / dst
        → ltb from (length xs * dst / src) ≡ true
        → (not final && leb (length xs) (from * src / dst + 1)) ≡ false
        → Emits final xs base output fuel (from + 1) n
        → Emits final xs base output (suc fuel) from (suc n)
    unfolding points
    Emits-more final xs base output fuel from n le more on e =
        let inside =
          position-lt-total from (length xs) src dst positive.0 positive.1 (ground (arith, more)) in
        let count : from + 1 + n ≡ from + suc n = omega arith in
        record {
          emitted =
              loop_step final xs base output fuel from (point xs from) more on
                (value_at-point xs base output from le inside)
              ∙ ap (λ r. prepend (point xs from) r) e.emitted
              ∙ ap (λ o. some (point xs from ∷ points xs (from + 1) n, o)) count;
          due = omega (arith, e.due);
          known = λ f k a b. elim (ℕ_discrete from k) [
            | yes same ↦ known_at final xs from k on f same
            | no later ↦ e.known f k (omega (arith, a, later)) (omega (arith, b))
          ];
          ended = λ f h. omega (arith, e.ended f (omega (arith, h)));
        }

    pub loop-Emits :
        (final : Bool) (xs : List ℕ) (base output fuel from : ℕ)
        → base ≤ from * src / dst
        → from ≤ length xs * dst / src
        → (n : ℕ) × Emits final xs base output fuel from n
    unfolding emit_loop
    loop-Emits final xs base output zero from le due =
        Emits-nothing final xs base output zero from refl due (λ _ h. omega (arith, h))
    loop-Emits final xs base output (suc fuel) from le due =
        elim (Bool-cases (ltb from (length xs * dst / src))) [
          | inr stop ↦
              Emits-nothing final xs base output (suc fuel) from
                (loop_stop final xs base output fuel from stop) due (λ _ h. ground (arith, stop))
          | inl more ↦ elim (Bool-cases (not final && leb (length xs) (from * src / dst + 1))) [
            | inl short ↦
                Emits-nothing final xs base output (suc fuel) from
                  (loop_short final xs base output fuel from more short) due
                  (λ f h. ground (arith, short))
            | inr on ↦
                let later : base ≤ (from + 1) * src / dst = omega (
                  arith,
                  le,
                  div_mono (from * src) ((from + 1) * src) dst positive.1 (omega arith),
                ) in
                let (n, e) =
                  loop-Emits final xs base output fuel (from + 1) later (ground (arith, more)) in
                (suc n, Emits-more final xs base output fuel from n le more on e)
          ]
        ]
