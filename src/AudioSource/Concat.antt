-- ===== src/AudioSource/Concat.antt =====
-- What the reads of a source come to.
use gocalis.Common.{
  take-drop, drop-drop, drop_all, append_assoc, ℕ, zero, suc, ◌+◌, ◌-◌, ◌≤◌, ◌<◌, ◌≡◌, ◌≢◌, refl,
  ap, ◌∙◌, sym, subst, Bool, true, false, Option, none, some, List, [], ◌∷◌, ◌++◌, length, take,
  drop, min, arith, ◌==◌, ℕ_discrete, CtxError,
}
use gocalis.AudioSource.{
  Reading, eof, SliceSource, new_slice_source, read_slice, PromptSource, read_prompt_source, played,
  play_stream, after_read,
}

-- A source yields a list if its reads give it in chunks, without an error before io.EOF.
pub data Yields {S : Type 0} (read : S → S × Reading) : S → List ℕ → Type 0 where
  ends :
      (s t : S) (xs : List ℕ) → read s ≡ (t, record { pcm = xs; err = some eof }) → Yields read s xs
  more :
      (s t : S) (xs ys : List ℕ)
      → read s ≡ (t, record { pcm = xs; err = none })
      → Yields read t ys
      → Yields read s (xs ++ ys)

slice_end : (size : ℕ) → SliceSource → ℕ
slice_end size s = min (length s.samples) (s.offset + size)

read_slice-end :
    (size : ℕ) (s : SliceSource)
    → 0 < size
    → s.offset ≡ length s.samples
    → read_slice none size s ≡ (s, record { pcm = []; err = some eof })
unfolding read_slice
read_slice-end size s h e = ground arith

read_slice-chunk :
    (size : ℕ) (s : SliceSource)
    → 0 < size
    → s.offset < length s.samples
    → read_slice none size s ≡ (
      record s { offset = slice_end size s },
      record { pcm = take (slice_end size s - s.offset) (drop s.offset s.samples); err = none },
    )
unfolding read_slice slice_end
read_slice-chunk size s h e = ground arith

-- A chunk and what is left behind it.
chunk_rest :
    (size : ℕ) (s : SliceSource)
    → s.offset ≤ length s.samples
    → take (slice_end size s - s.offset) (drop s.offset s.samples)
        ++ drop (slice_end size s) s.samples
      ≡ drop s.offset s.samples
unfolding slice_end
chunk_rest size s h =
    let k = min (length s.samples) (s.offset + size) - s.offset in
    let e : min (length s.samples) (s.offset + size) ≡ s.offset + k = omega arith in
    ap (λ i. take k (drop s.offset s.samples) ++ drop i s.samples) e
    ∙ ap (λ l. take k (drop s.offset s.samples) ++ l) (sym (drop-drop k s.offset s.samples))
    ∙ take-drop k (drop s.offset s.samples)

slice_end-in : (size : ℕ) (s : SliceSource) → slice_end size s ≤ length s.samples
unfolding slice_end
slice_end-in size s = omega arith

slice_end-on :
    (size : ℕ) (s : SliceSource) (fuel : ℕ)
    → 0 < size
    → s.offset ≢ length s.samples
    → s.offset ≤ length s.samples
    → length s.samples ≤ s.offset + suc fuel
    → length s.samples ≤ slice_end size s + fuel
unfolding slice_end
slice_end-on size s fuel h off inside enough = omega arith

slice_at_end :
    (size : ℕ) (s : SliceSource)
    → 0 < size
    → s.offset ≡ length s.samples
    → Yields (read_slice none size) s (drop s.offset s.samples)
slice_at_end size s h e =
    subst (λ l. Yields (read_slice none size) s l)
      (sym (ap (λ i. drop i s.samples) e ∙ drop_all s.samples))
      (ends s s [] (read_slice-end size s h e))

slice_rest :
    (size : ℕ)
    → 0 < size
    → (fuel : ℕ) (s : SliceSource) → s.offset ≤ length s.samples
    → length s.samples ≤ s.offset + fuel
    → Yields (read_slice none size) s (drop s.offset s.samples)
slice_rest size h zero s inside enough = slice_at_end size s h (omega arith)
slice_rest size h (suc fuel) s inside enough = elim (ℕ_discrete s.offset (length s.samples)) [
  | yes e ↦ slice_at_end size s h e
  | no off ↦
      let next : SliceSource = record s { offset = slice_end size s } in
      subst (λ l. Yields (read_slice none size) s l) (chunk_rest size s inside)
        (more s next (take (slice_end size s - s.offset) (drop s.offset s.samples))
          (drop (slice_end size s) s.samples) (read_slice-chunk size s h (ground arith))
          (slice_rest size h fuel next (slice_end-in size s)
            (slice_end-on size s fuel h off inside enough)))
]

-- With a live context and a positive chunk size, a new slice source yields its samples.
pub slice-Yields :
    (size : ℕ) (samples : List ℕ) (rate : ℕ)
    → 0 < size
    → Yields (read_slice none size) (new_slice_source samples rate) samples
unfolding new_slice_source
slice-Yields size samples rate h =
    slice_rest size h (length samples) (record { samples = samples; rate = rate; offset = 0 })
      (omega arith) (omega arith)

same_read :
    {S : Type 0} (read : S → S × Reading) (s s' : S) (xs : List ℕ)
    → read s ≡ read s'
    → Yields read s' xs
    → Yields read s xs
same_read read s s' _ e (ends _ t xs f) = ends s t xs (e ∙ f)
same_read read s s' _ e (more _ t xs ys f h) = more s t xs ys (e ∙ f) h

module _ {S : Type 0} (read : S → S × Reading) (size : ℕ) where
  abbrev prompt_source : S → SliceSource → Bool → PromptSource S
  prompt_source s tail ended = record { prompt = s; tail = tail; ended = ended }

  abbrev read_both : PromptSource S → PromptSource S × Reading
  read_both s = read_prompt_source read none size s

  tail_read :
      (p : S) (tail next : SliceSource) (r : Reading)
      → read_slice none size tail ≡ (next, r)
      → read_both (prompt_source p tail true) ≡ (prompt_source p next true, r)
  unfolding read_prompt_source
  tail_read p tail next r e = ap (λ (q : SliceSource × Reading). (prompt_source p q.0 true, q.1)) e

  tail-Yields :
      (p : S) (tail : SliceSource) (xs : List ℕ)
      → Yields (read_slice none size) tail xs
      → Yields read_both (prompt_source p tail true) xs
  tail-Yields p _ _ (ends tail t xs e) = ends _ (prompt_source p t true) xs (tail_read p tail t _ e)
  tail-Yields p _ _ (more tail t xs ys e h) =
      more _ (prompt_source p t true) xs ys (tail_read p tail t _ e) (tail-Yields p t ys h)

  prompt_read :
      (s t : S) (tail : SliceSource) (xs : List ℕ)
      → read s ≡ (t, record { pcm = xs; err = none })
      → read_both (prompt_source s tail false)
        ≡ (prompt_source t tail false, record { pcm = xs; err = none })
  unfolding read_prompt_source
  prompt_read s t tail xs e = rw e refl

  prompt_last :
      (s t : S) (tail : SliceSource)
      → read s ≡ (t, record { pcm = []; err = some eof })
      → read_both (prompt_source s tail false) ≡ read_both (prompt_source t tail true)
  unfolding read_prompt_source
  prompt_last s t tail e = rw e refl

  prompt_last_chunk :
      (s t : S) (tail : SliceSource) (x : ℕ) (xs : List ℕ)
      → read s ≡ (t, record { pcm = x ∷ xs; err = some eof })
      → read_both (prompt_source s tail false)
        ≡ (prompt_source t tail true, record { pcm = x ∷ xs; err = none })
  unfolding read_prompt_source
  prompt_last_chunk s t tail x xs e =
      let some_pcm : (length (x ∷ xs) == 0) ≡ false = ground arith in rw (e, some_pcm) refl

  -- A prompt source whose prompt yields one list and whose tail another yields the prompt and then the
  -- tail, also where the prompt's last chunk comes together with io.EOF.
  pub prompt-Yields :
      (s : S) (tail : SliceSource) (xs zs : List ℕ)
      → Yields read s xs
      → Yields (read_slice none size) tail zs
      → Yields read_both (prompt_source s tail false) (xs ++ zs)
  prompt-Yields _ tail _ zs (ends s t [] e) h =
      same_read read_both _ (prompt_source t tail true) zs (prompt_last s t tail e)
        (tail-Yields t tail zs h)
  prompt-Yields _ tail _ zs (ends s t (x ∷ xs) e) h =
      more _ (prompt_source t tail true) (x ∷ xs) zs (prompt_last_chunk s t tail x xs e)
        (tail-Yields t tail zs h)
  prompt-Yields _ tail _ zs (more s t xs ys e k) h =
      subst (λ l. Yields read_both (prompt_source s tail false) l) (sym (append_assoc xs ys zs))
        (more _ (prompt_source t tail false) xs (ys ++ zs) (prompt_read s t tail xs e)
          (prompt-Yields t tail ys zs k h))

abbrev pub live : ℕ → List (Option CtxError)
live zero = []
live (suc n) = none ∷ live n

play_ends :
    {S : Type 0} (read : S → S × Reading) (s t : S) (xs buf : List ℕ)
    (later : List (Option CtxError))
    → read s ≡ (t, record { pcm = xs; err = some eof })
    → play_stream read (none ∷ later) s buf ≡ played (buf ++ xs)
unfolding play_stream
play_ends {S = S} read s t xs buf later e =
    ap
      (λ (r : S × Reading).
        after_read r.1.err (buf ++ r.1.pcm) (play_stream read later r.0 (buf ++ r.1.pcm)))
      e

play_more :
    {S : Type 0} (read : S → S × Reading) (s t : S) (xs buf : List ℕ)
    (later : List (Option CtxError))
    → read s ≡ (t, record { pcm = xs; err = none })
    → play_stream read (none ∷ later) s buf ≡ play_stream read later t (buf ++ xs)
unfolding play_stream
play_more {S = S} read s t xs buf later e =
    ap
      (λ (r : S × Reading).
        after_read r.1.err (buf ++ r.1.pcm) (play_stream read later r.0 (buf ++ r.1.pcm)))
      e

-- Playing a source that yields a list records that list behind what was there, after some number of
-- rounds with a live context, whatever the context does later.
pub play_stream-Yields :
    {S : Type 0} (read : S → S × Reading) (s : S) (xs buf : List ℕ)
    → Yields read s xs
    → (n : ℕ) × ((later : List (Option CtxError))
        → play_stream read (live n ++ later) s buf ≡ played (buf ++ xs))
play_stream-Yields read _ _ buf (ends s t xs e) = (1, λ later. play_ends read s t xs buf later e)
play_stream-Yields read _ _ buf (more s t xs ys e h) =
    let (n, go) = play_stream-Yields read t ys (buf ++ xs) h in
    (
      suc n,
      λ later.
          play_more read s t xs buf (live n ++ later) e
          ∙ go later
          ∙ ap played (append_assoc buf xs ys),
    )
