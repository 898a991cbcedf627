-- ===== src/Playback/Whole.antt =====
-- The loop of PlayStream where no call fails: the chunks of the source up to io.EOF, one after another.
use gocalis.Common.{
  ℕ, suc, ◌≡◌, refl, ap, ◌∙◌, sym, subst, false, Option, none, some, List, [], ◌∷◌, ◌++◌,
  if◌then◌else◌, length, concat, append_assoc, append-nil, arith, ◌==◌,
}
use gocalis.AudioSource.{eof, Reading}
use gocalis.Playback.{PlayError, completed, after_flush, after_push, play}

-- What a source reads: some chunks and then io.EOF, with or without a last chunk.
abbrev pub readings_of : List (List ℕ) → List ℕ → List Reading
readings_of [] last = record { pcm = last; err = some eof } ∷ []
readings_of (pcm ∷ chunks) last = record { pcm = pcm; err = none } ∷ readings_of chunks last

-- A chunk that is empty is not pushed.
unfoldable pub spoken : List ℕ → List (List ℕ)
spoken [] = []
spoken (x ∷ pcm) = (x ∷ pcm) ∷ []

suc_not_zero : (n : ℕ) → (suc n == 0) ≡ false
suc_not_zero n = ground arith

unfoldable pub all_spoken : List (List ℕ) → List ℕ → List (List ℕ)
all_spoken [] last = spoken last
all_spoken (pcm ∷ chunks) last = spoken pcm ++ all_spoken chunks last

concat-spoken : (pcm : List ℕ) → concat (spoken pcm) ≡ pcm
unfolding spoken
concat-spoken [] = refl
concat-spoken (x ∷ pcm) = append-nil (x ∷ pcm)

concat-append : (xss yss : List (List ℕ)) → concat (xss ++ yss) ≡ concat xss ++ concat yss
concat-append [] yss = refl
concat-append (xs ∷ xss) yss =
    ap (λ l. xs ++ l) (concat-append xss yss) ∙ sym (append_assoc xs (concat xss) (concat yss))

pub concat-all_spoken :
    (chunks : List (List ℕ)) (last : List ℕ)
    → concat (all_spoken chunks last) ≡ concat chunks ++ last
unfolding all_spoken
concat-all_spoken [] last = concat-spoken last
concat-all_spoken (pcm ∷ chunks) last =
    concat-append (spoken pcm) (all_spoken chunks last)
    ∙ ap (λ l. l ++ concat (all_spoken chunks last)) (concat-spoken pcm)
    ∙ ap (λ l. pcm ++ l) (concat-all_spoken chunks last)
    ∙ sym (append_assoc pcm (concat chunks) last)

module _ {S : Type 0} (push : S → List ℕ → S × Option PlayError) (flush : S → S × Option PlayError)
    (Pushed : List (List ℕ) → S → Type 0) (Done : List (List ℕ) → S → Type 0)
    (push_works : (past : List (List ℕ)) (s : S) (pcm : List ℕ)
      → Pushed past s
      → (s' : S) × (push s pcm ≡ (s', none)) × Pushed (past ++ pcm ∷ []) s')
    (flush_works : (past : List (List ℕ)) (s : S)
      → Pushed past s
      → (s' : S) × (flush s ≡ (s', none)) × Done past s') where
  skip_works :
      (past : List (List ℕ)) (s : S) (pcm : List ℕ)
      → Pushed past s
      → (s' : S) × ((if length pcm == 0 then (s, none) else push s pcm) ≡ (s', none))
        × Pushed (past ++ spoken pcm) s'
  unfolding spoken
  skip_works past s [] p = (s, refl, subst (λ l. Pushed l s) (sym (append-nil past)) p)
  skip_works past s (x ∷ pcm) p = rw (suc_not_zero (length pcm)) (push_works past s (x ∷ pcm) p)

  pub play_works :
      (past : List (List ℕ)) (s : S) (chunks : List (List ℕ)) (last : List ℕ)
      → Pushed past s
      → (s' : S) × (play push flush s (readings_of chunks last) ≡ (s', completed))
        × Done (past ++ all_spoken chunks last) s'
  unfolding play all_spoken
  play_works past s [] last p =
      let (t, e, p') = skip_works past s last p in
      let (u, f, d) = flush_works (past ++ spoken last) t p' in
      (
        u,
        ap (λ r. after_push push flush r (some eof) (play push flush r.0 [])) e
            ∙ ap (λ r. after_flush push flush r) f,
        d,
      )
  play_works past s (pcm ∷ chunks) last p =
      let (t, e, p') = skip_works past s pcm p in
      let (u, f, d) = play_works (past ++ spoken pcm) t chunks last p' in
      (
        u,
        ap (λ r. after_push push flush r none (play push flush r.0 (readings_of chunks last))) e
            ∙ f,
        subst (λ l. Done l u) (append_assoc past (spoken pcm) (all_spoken chunks last)) d,
      )
