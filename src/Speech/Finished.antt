-- ===== src/Speech/Finished.antt =====
-- A stream that is done is a source of what is left in its buffer.
use gocalis.Common.{
  ℕ, zero, suc, ◌≤◌, ◌<◌, ◌≡◌, ap, sym, subst, true, none, [], length, length-drop, take, drop, min,
  arith, take-drop, ℕ_discrete, empty_list,
}
use gocalis.Speech.{
  SpeechStream, StreamError, end_of_file, Read, read_waits, read_fails, reads, read_pcm16,
}
use gocalis.AudioSource.{Reading, ReadError, eof, other_error, failing}
use gocalis.AudioSource.Concat.{Yields, ends, more}

-- The stream as the source that PlayStream reads, with a live context. A read that waits gives nothing yet.
abbrev pub error_of : StreamError → ReadError
error_of end_of_file = eof
error_of _ = other_error 0

abbrev pub reading_of : SpeechStream → Read → SpeechStream × Reading
reading_of s read_waits = (s, record { pcm = []; err = none })
reading_of s (read_fails e) = (s, failing (error_of e))
reading_of s (reads t chunk) = (t, record { pcm = chunk; err = none })

unfoldable pub as_source : ℕ → SpeechStream → SpeechStream × Reading
as_source size s = reading_of s (read_pcm16 none size s)

read_end :
    (size : ℕ) (s : SpeechStream)
    → 0 < size
    → s.done ≡ true
    → s.err ≡ none
    → length s.buf ≡ 0
    → read_pcm16 none size s ≡ read_fails end_of_file
unfolding read_pcm16
read_end size s h d e l = ground arith

read_some :
    (size : ℕ) (s : SpeechStream)
    → 0 < size
    → 0 < length s.buf
    → read_pcm16 none size s
      ≡ reads
          (record s { buf = drop (min size (length s.buf)) s.buf })
          (take (min size (length s.buf)) s.buf)
unfolding read_pcm16
read_some size s h l = ground arith

drained_empty :
    (size : ℕ) (s : SpeechStream)
    → 0 < size
    → s.done ≡ true
    → s.err ≡ none
    → length s.buf ≡ 0
    → Yields (as_source size) s s.buf
unfolding as_source
drained_empty size s h d e l =
    subst (λ xs. Yields (as_source size) s xs) (sym (empty_list s.buf l))
      (ends s s [] (ap (reading_of s) (read_end size s h d e l)))

drained :
    (size : ℕ)
    → 0 < size
    → (fuel : ℕ) (s : SpeechStream) → s.done ≡ true
    → s.err ≡ none
    → length s.buf ≤ fuel
    → Yields (as_source size) s s.buf
unfolding as_source
drained size h zero s d e l = drained_empty size s h d e (omega (arith, l))
drained size h (suc fuel) s d e l = elim (ℕ_discrete (length s.buf) 0) [
  | yes none_left ↦ drained_empty size s h d e none_left
  | no some_left ↦
      let n = min size (length s.buf) in
      let rest : SpeechStream = record s { buf = drop n s.buf } in
      let shorter : length (drop n s.buf) ≤ fuel =
        omega (arith, h, l, some_left, length-drop n s.buf) in
      subst (λ xs. Yields (as_source size) s xs) (take-drop n s.buf)
        (more s rest (take n s.buf) (drop n s.buf)
          (ap (reading_of s) (read_some size s h (omega (arith, some_left))))
          (drained size h fuel rest d e shorter))
]

-- Once the synthesis has finished without an error, reads with a live context and a positive chunk
-- size give what is left in the buffer, in chunks, and then io.EOF.
pub finished-Yields :
    (size : ℕ) (s : SpeechStream)
    → 0 < size
    → s.done ≡ true
    → s.err ≡ none
    → Yields (as_source size) s s.buf
finished-Yields size s h d e = drained size h (length s.buf) s d e (omega arith)
