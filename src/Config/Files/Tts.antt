-- ===== src/Config/Files/Tts.antt =====
-- The files of the synthesizer, of either engine.
use gocalis.Common.{
  if◌then◌else◌, ℕ, ◌≡◌, ◌≢◌, refl, ap, subst, true, not, [], ◌∷◌, All, arith, Bool-cases, inl, inr,
}
use gocalis.Config.{Text, Floats, TtsEngine, vits, supertonic, other_tts, Config}
use gocalis.Config.Files.{Stat, directory, is_supertonic, when, supertonic_files}
use gocalis.Config.Files.Required.{HasSeven, HasTts}
use gocalis.Config.Files.Checked.{AllRegular}

module _ (F : Floats) (join : Text → ℕ → Text) (stat : Text → Stat) where
  engine-supertonic : (e : TtsEngine) → is_supertonic e ≡ true → e ≡ supertonic
  engine-supertonic supertonic h = refl
  engine-supertonic vits h = absurd (ground (arith, h))
  engine-supertonic other_tts h = absurd (ground (arith, h))

  pub tts_files-regular :
      (c : Config F.Num)
      → AllRegular F join stat (
          if is_supertonic c.tts_engine
          then supertonic_files F join c.model_dir
          else (c.tts_model ∷ c.tts_tokens ∷ []))
      → All
          (λ p. stat p ≡ directory)
          (when F join (not (is_supertonic c.tts_engine)) (c.data_dir ∷ []))
      → HasTts F join stat c
  unfolding HasSeven
  tts_files-regular c h d = elim (Bool-cases (is_supertonic c.tts_engine)) [
    | inl s ↦
        let k : AllRegular F join stat (supertonic_files F join c.model_dir) =
          subst
            (λ b. AllRegular F join stat (
              if b then supertonic_files F join c.model_dir else (c.tts_model ∷ c.tts_tokens ∷ [])))
            s h in
        let is = engine-supertonic c.tts_engine s in
        record {
          seven =
              λ _. (k.0, k.1.0, k.1.1.0, k.1.1.1.0, k.1.1.1.1.0, k.1.1.1.1.1.0, k.1.1.1.1.1.1.0);
          model = λ n. absurd (n is);
          tokens = λ n. absurd (n is);
          data_dir = λ n. absurd (n is);
        }
    | inr s ↦
        let k : AllRegular F join stat (c.tts_model ∷ c.tts_tokens ∷ []) =
          subst
            (λ b. AllRegular F join stat (
              if b then supertonic_files F join c.model_dir else (c.tts_model ∷ c.tts_tokens ∷ [])))
            s h in
        let l : All (λ p. stat p ≡ directory) (c.data_dir ∷ []) =
          subst (λ b. All (λ p. stat p ≡ directory) (when F join (not b) (c.data_dir ∷ []))) s d in
        record {
          seven = λ e. absurd (ground (arith, s, ap is_supertonic e));
          model = λ _. k.0;
          tokens = λ _. k.1.0;
          data_dir = λ _. l.0;
        }
  ]

  pub regular-tts_files :
      (c : Config F.Num)
      → HasTts F join stat c
      → AllRegular F join stat (
          if is_supertonic c.tts_engine
          then supertonic_files F join c.model_dir
          else (c.tts_model ∷ c.tts_tokens ∷ []))
        × All
            (λ p. stat p ≡ directory)
            (when F join (not (is_supertonic c.tts_engine)) (c.data_dir ∷ []))
  unfolding HasSeven
  regular-tts_files c t = elim (Bool-cases (is_supertonic c.tts_engine)) [
    | inl s ↦
        let (a, b, d, e, f, g, i) = t.seven (engine-supertonic c.tts_engine s) in
        rw s ((a, (b, (d, (e, (f, (g, (i, tt))))))), tt)
    | inr s ↦
        let other : c.tts_engine ≢ supertonic = λ e. ground (arith, s, ap is_supertonic e) in
        rw s ((t.model other, (t.tokens other, tt)), (t.data_dir other, tt))
  ]
