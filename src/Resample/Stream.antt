-- ===== src/Resample/Stream.antt =====
-- What the chunks of a stream come to: the resampling of the whole clip.
use gocalis.Common.{
  concat, ℕ, ◌+◌, ◌-◌, ◌*◌, ◌/◌, ◌≤◌, ◌<◌, ◌≡◌, refl, ap, ◌∙◌, sym, Bool, true, false, some, List,
  [], ◌∷◌, ◌++◌, length, length-append, length-drop, drop, min, arith, dec_lt, drop-append,
  drop-drop, append-nil, append_assoc, ◌==◌,
}
use gocalis.Resample.{
  PcmResampler, new_resampler, position, limit, kept_of, trim, emit, push, flush, append_to,
  and_then, stream,
}
use gocalis.Resample.Position.{div_mono}
use gocalis.Resample.Whole.{
  points, whole_clip, points-append, points_stable, state, Emits, loop-Emits,
}

module _ (lerp : ℕ → ℕ → ℕ → ℕ → ℕ) (src dst : ℕ) (positive : (0 < src) × (0 < dst)) where
  trimmed : List ℕ → ℕ → ℕ → ℕ
  trimmed xs base output = base + min (output * src / dst - base) (length (drop base xs))

  trim_state :
      (xs : List ℕ) (base output o : ℕ)
      → trim (state lerp src dst xs base output) o ≡ state lerp src dst xs (trimmed xs base o) o
  unfolding trim trimmed position
  trim_state xs base output o =
      let d = min (o * src / dst - base) (length (drop base xs)) in
      ap
        (λ input. record {
          src = src;
          dst = dst;
          input = input;
          base = base + d;
          total = length xs;
          output = o;
        })
        (drop-drop d base xs)

  -- A call of emit, with what it leaves.
  record Emission (final : Bool) (xs : List ℕ) (base output n kept : ℕ) : Type 0 where
    result :
        emit lerp final (state lerp src dst xs base output)
        ≡ some (state lerp src dst xs kept (output + n), points lerp src dst xs output n)
    behind : kept ≤ (output + n) * src / dst
    inside : kept ≤ length xs
    due : output + n ≤ length xs * dst / src
    known : final ≡ false → (k : ℕ) → output ≤ k → k < output + n → k * src / dst + 1 < length xs
    ended : final ≡ true → output + n ≡ length xs * dst / src

  emit_of :
      (final : Bool) (xs : List ℕ) (base output n : ℕ)
      → Emits lerp src dst final xs base output (length xs * dst / src - output) output n
      → emit lerp final (state lerp src dst xs base output)
        ≡ some (
          state lerp src dst xs (trimmed xs base (output + n)) (output + n),
          points lerp src dst xs output n,
        )
  unfolding emit limit
  emit_of final xs base output n e =
      let some_src : (src == 0) ≡ false = ground (arith, positive.0) in
      let some_dst : (dst == 0) ≡ false = ground (arith, positive.1) in
      rw (some_src, some_dst)
        (ap (λ r. kept_of (state lerp src dst xs base output) r) e.emitted
          ∙ ap (λ t. some (t, points lerp src dst xs output n))
              (trim_state xs base output (output + n)))

  emission :
      (final : Bool) (xs : List ℕ) (base output : ℕ)
      → base ≤ output * src / dst
      → base ≤ length xs
      → output ≤ length xs * dst / src
      → (n : ℕ) × (kept : ℕ) × Emission final xs base output n kept
  unfolding trimmed
  emission final xs base output le inside due =
      let fuel = length xs * dst / src - output in
      let (n, e) = loop-Emits lerp src dst positive final xs base output fuel output le due in
      let later : base ≤ (output + n) * src / dst =
        omega
          (arith, le, div_mono (output * src) ((output + n) * src) dst positive.1 (omega arith)) in
      (
        n,
        trimmed xs base (output + n),
        record {
          result = emit_of final xs base output n e;
          behind = omega (arith, later);
          inside = omega (arith, inside, length-drop base xs);
          due = e.due;
          known = e.known;
          ended = λ f. e.ended f (omega arith);
        },
      )

  push_state :
      (xs chunk : List ℕ) (base output : ℕ)
      → base ≤ length xs
      → push lerp (state lerp src dst xs base output) chunk
        ≡ emit lerp false (state lerp src dst (xs ++ chunk) base output)
  unfolding push
  push_state xs chunk base output inside =
      let pushed = λ (input : List ℕ) (total : ℕ). emit lerp false (record {
        src = src;
        dst = dst;
        input = input;
        base = base;
        total = total;
        output = output;
      }) in
      ap (λ input. pushed input (length xs + length chunk)) (sym (drop-append base xs chunk inside))
      ∙ ap (λ total. pushed (drop base (xs ++ chunk)) total) (sym (length-append xs chunk))

  stream_step :
      (r s : PcmResampler) (chunk out : List ℕ) (chunks : List (List ℕ))
      → push lerp r chunk ≡ some (s, out)
      → stream lerp r (chunk ∷ chunks) ≡ append_to out (stream lerp s chunks)
  unfolding stream
  stream_step r s chunk out chunks e = ap (λ p. and_then p (λ q. stream lerp q chunks)) e

  limit_mono : (xs chunk : List ℕ) → length xs * dst / src ≤ length (xs ++ chunk) * dst / src
  limit_mono xs chunk =
      div_mono (length xs * dst) (length (xs ++ chunk) * dst) src positive.0
        (omega (arith, ap (λ (t : ℕ). t * dst) (length-append xs chunk)))

  -- The points of a chunk and of what follows.
  join_points :
      (xs rest : List ℕ) (output n : ℕ)
      → ((k : ℕ) → k < output + n → k * src / dst + 1 < length xs)
      → output + n ≤ length (xs ++ rest) * dst / src
      → points lerp src dst xs output n
          ++ points lerp src dst
              (xs ++ rest)
              (output + n)
              (length (xs ++ rest) * dst / src - (output + n))
        ≡ points lerp src dst (xs ++ rest) output (length (xs ++ rest) * dst / src - output)
  join_points xs rest output n known le =
      let whole = length (xs ++ rest) * dst / src in
      let count : n + (whole - (output + n)) ≡ whole - output = omega arith in
      ap (λ l. l ++ points lerp src dst (xs ++ rest) (output + n) (whole - (output + n)))
        (sym (points_stable lerp src dst xs rest output n known))
      ∙ points-append lerp src dst (xs ++ rest) output n (whole - (output + n))
      ∙ ap (λ m. points lerp src dst (xs ++ rest) output m) count

  known_all :
      (xs chunk : List ℕ) (output n : ℕ)
      → ((k : ℕ) → k < output → k * src / dst + 1 < length xs)
      → ((k : ℕ) → output ≤ k → k < output + n → k * src / dst + 1 < length (xs ++ chunk))
      → (k : ℕ) → k < output + n
      → k * src / dst + 1 < length (xs ++ chunk)
  known_all xs chunk output n settled known k h = elim (dec_lt k output) [
    | yes old ↦ omega (arith, settled k old, length-append xs chunk)
    | no new ↦ known k (omega (arith, new)) h
  ]

  stream_from :
      (xs : List ℕ) (chunks : List (List ℕ)) (base output : ℕ)
      → base ≤ output * src / dst
      → base ≤ length xs
      → output ≤ length xs * dst / src
      → ((k : ℕ) → k < output → k * src / dst + 1 < length xs)
      → (r : PcmResampler) × (stream lerp (state lerp src dst xs base output) chunks
          ≡ some (
            r,
            points lerp src dst
                (xs ++ concat chunks)
                output
                (length (xs ++ concat chunks) * dst / src - output),
          ))
  unfolding stream flush
  stream_from xs [] base output le inside due settled =
      let (n, kept, e) = emission true xs base output le inside due in
      let all : n ≡ length xs * dst / src - output = omega (arith, e.ended refl) in
      (
        state lerp src dst xs kept (output + n),
        e.result
            ∙ ap
                (λ m.
                  some (state lerp src dst xs kept (output + n), points lerp src dst xs output m))
                all
            ∙ ap
                (λ l. some (
                  state lerp src dst xs kept (output + n),
                  points lerp src dst l output (length l * dst / src - output),
                ))
                (sym (append-nil xs)),
      )
  stream_from xs (chunk ∷ chunks) base output le inside due settled =
      let ys = xs ++ chunk in
      let reach : output ≤ length ys * dst / src = omega (arith, due, limit_mono xs chunk) in
      let (n, kept, e) =
        emission false ys base output le (omega (arith, inside, length-append xs chunk)) reach in
      let known : (k : ℕ) → k < output + n → k * src / dst + 1 < length ys =
        known_all xs chunk output n settled (e.known refl) in
      let (r, rest) = stream_from ys chunks kept (output + n) e.behind e.inside e.due known in
      (
        r,
        stream_step (state lerp src dst xs base output) (state lerp src dst ys kept (output + n))
              chunk (points lerp src dst ys output n) chunks
              (push_state xs chunk base output inside ∙ e.result)
            ∙ ap (append_to (points lerp src dst ys output n)) rest
            ∙ ap (λ l. some (r, l))
                (join_points ys (concat chunks) output n known
                  (omega (arith, e.due, limit_mono ys (concat chunks))))
            ∙ ap (λ l. some (r, points lerp src dst l output (length l * dst / src - output)))
                (append_assoc xs chunk (concat chunks)),
      )

  -- For positive rates, a clip that is pushed in chunks of any sizes, the empty ones included, and
  -- flushed gives, without an index out of range, exactly the samples of resampling the whole clip.
  pub stream-whole_clip :
      (chunks : List (List ℕ))
      → (r : PcmResampler) × (stream lerp (new_resampler src dst) chunks
          ≡ some (r, whole_clip lerp src dst (concat chunks)))
  unfolding new_resampler whole_clip
  stream-whole_clip chunks =
      let all : length (concat chunks) * dst / src - 0 ≡ length (concat chunks) * dst / src =
        omega arith in
      let (r, e) =
        stream_from [] chunks 0 0 (omega arith) (omega arith) (omega arith)
          (λ k h. absurd (omega (arith, h))) in
      (r, e ∙ ap (λ n. some (r, points lerp src dst (concat chunks) 0 n)) all)
