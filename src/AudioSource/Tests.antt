-- ===== src/AudioSource/Tests.antt =====
-- A prompt of three samples and a tail of two, read two at a time.
use gocalis.Common.{◌≡◌, refl, false, none, some, [], ◌∷◌, ◌++◌, arith, canceled}
use gocalis.AudioSource.{
  SliceSource, new_slice_source, read_slice, PromptSource, read_prompt_source, played, stopped,
  context_error, play_stream,
}
use gocalis.AudioSource.Concat.{Yields, slice-Yields, prompt-Yields, live}

abbrev words : SliceSource
words = new_slice_source (1 ∷ 2 ∷ 3 ∷ []) 8000

abbrev chime : SliceSource
chime = new_slice_source (8 ∷ 9 ∷ []) 8000

abbrev both : PromptSource SliceSource
both = record { prompt = words; tail = chime; ended = false }

both_played :
    play_stream (read_prompt_source (read_slice none 2) none 2) (live 4) both []
    ≡ played (1 ∷ 2 ∷ 3 ∷ 8 ∷ 9 ∷ [])
unfolding play_stream read_prompt_source read_slice new_slice_source
both_played = refl

cancelled_early :
    play_stream (read_slice none 2) (none ∷ some canceled ∷ []) words []
    ≡ stopped (context_error canceled)
unfolding play_stream read_slice new_slice_source
cancelled_early = refl

chime-Yields : Yields (read_slice none 2) chime (8 ∷ 9 ∷ [])
chime-Yields = slice-Yields 2 (8 ∷ 9 ∷ []) 8000 (omega arith)

words-Yields : Yields (read_slice none 2) words (1 ∷ 2 ∷ 3 ∷ [])
words-Yields = slice-Yields 2 (1 ∷ 2 ∷ 3 ∷ []) 8000 (omega arith)

prompt-Yields_example :
    Yields
      (λ s. read_prompt_source (read_slice none 2) none 2 s)
      both
      ((1 ∷ 2 ∷ 3 ∷ []) ++ (8 ∷ 9 ∷ []))
prompt-Yields_example =
    prompt-Yields (read_slice none 2) 2 words chime (1 ∷ 2 ∷ 3 ∷ []) (8 ∷ 9 ∷ []) words-Yields
      chime-Yields
