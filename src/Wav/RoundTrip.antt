-- ===== src/Wav/RoundTrip.antt =====
-- What EncodeWAVPCM16 writes, DecodeWAVPCM16 reads back.
use gocalis.Common.{
  ℕ, zero, suc, ◌+◌, ◌*◌, ◌/◌, ◌%◌, ◌^◌, ◌≤◌, ◌<◌, ◌≡◌, refl, true, false, List, [], ◌∷◌, All,
  arith, length, drop, take, ltb, ap, ◌∙◌, sym, ◌&&◌,
}
use gocalis.Wav.{
  Found, found, ended, ok, sample_bytes, data_chunk, fmt_fields, fmt_chunk, encode, decode,
  chunk_size, read_chunk, read_fmt, is_id, walk, interleaved, finish, nothing_found,
}
use gocalis.Wav.Walk.{walk_found, walk_end}

length-sample_bytes : (samples : List ℕ) → length (sample_bytes samples) ≡ length samples * 2
unfolding sample_bytes
length-sample_bytes [] = omega arith
length-sample_bytes (s ∷ samples) = omega (arith, length-sample_bytes samples)

interleaved-sample_bytes :
    (samples : List ℕ) → All (λ s. s < 65536) samples → interleaved (sample_bytes samples) ≡ samples
unfolding interleaved sample_bytes
interleaved-sample_bytes [] h = refl
interleaved-sample_bytes (s ∷ samples) h =
    let whole : s % 256 + 256 * (s / 256 % 256) ≡ s = omega (arith, h.0) in
    ap (λ (n : ℕ). n ∷ interleaved (sample_bytes samples)) whole
    ∙ ap (◌∷◌ s) (interleaved-sample_bytes samples h.1)

-- What the walk has found behind the fmt chunk, and behind the data chunk.
abbrev with_fmt : ℕ → Found
with_fmt rate = record nothing_found { channels = 1; rate = rate; bits = 16; have_fmt = true }

abbrev with_data : ℕ → List ℕ → Found
with_data rate pcm = record nothing_found {
  channels = 1;
  rate = rate;
  bits = 16;
  have_fmt = true;
  have_data = true;
  pcm = pcm;
}

word_bytes :
    (n : ℕ)
    → n < 2 ^ 32
    → n % 2 ^ 32 % 256
        + 256 * (n % 2 ^ 32 / 256 % 256)
        + 65536 * (n % 2 ^ 32 / 65536 % 256)
        + 16777216 * (n % 2 ^ 32 / 16777216 % 256)
      ≡ n
word_bytes n h = omega arith

fmt_size : (rate : ℕ) (rest : List ℕ) → chunk_size (fmt_chunk rate rest) (fmt_fields rate rest) ≡ 16
unfolding chunk_size
fmt_size rate rest = ground arith

fmt_found :
    (rate : ℕ) (rest : List ℕ)
    → rate < 2 ^ 32
    → read_chunk nothing_found (fmt_chunk rate rest) 16 (fmt_fields rate rest)
      ≡ found (with_fmt rate)
unfolding read_chunk read_fmt is_id nothing_found
fmt_found rate rest h =
    ap
      (λ (r : ℕ).
        found (record nothing_found { channels = 1; rate = r; bits = 16; have_fmt = true }))
      (word_bytes rate h)

take-length : (xs : List ℕ) → take (length xs) xs ≡ xs
take-length [] = refl
take-length (x ∷ xs) = ap (◌∷◌ x) (take-length xs)

drop-length : (n : ℕ) (xs : List ℕ) → length xs ≤ n → drop n xs ≡ []
drop-length zero [] h = refl
drop-length zero (x ∷ xs) h = absurd (omega arith)
drop-length (suc n) [] h = refl
drop-length (suc n) (x ∷ xs) h = drop-length n xs (omega arith)

module _ (samples : List ℕ) (fits : length samples * 2 < 2 ^ 32) where
  data_size : chunk_size (data_chunk samples) (sample_bytes samples) ≡ length (sample_bytes samples)
  unfolding chunk_size
  data_size =
      let size = word_bytes (length samples * 2) fits ∙ sym (length-sample_bytes samples) in
      ground (arith, size)

  data_found :
      (rate : ℕ)
      → read_chunk
          (with_fmt rate)
          (data_chunk samples)
          (length (sample_bytes samples))
          (sample_bytes samples)
        ≡ found (with_data rate (sample_bytes samples))
  unfolding read_chunk is_id
  data_found rate =
      ap (λ (l : List ℕ). found (with_data rate l)) (take-length (sample_bytes samples))

  walk_data :
      (fuel rate : ℕ)
      → walk (suc (suc fuel)) (with_fmt rate) (data_chunk samples)
        ≡ ended (with_data rate (sample_bytes samples))
  walk_data fuel rate =
      let n = length (sample_bytes samples) in
      walk_found (suc fuel) (with_fmt rate) (with_data rate (sample_bytes samples))
        (data_chunk samples) (omega arith)
        (ap (λ (k : ℕ). read_chunk (with_fmt rate) (data_chunk samples) k (sample_bytes samples))
            data_size
          ∙ data_found rate)
      ∙ ap (walk (suc fuel) (with_data rate (sample_bytes samples))) (
          drop-length
            (chunk_size (data_chunk samples) (sample_bytes samples)
              + chunk_size (data_chunk samples) (sample_bytes samples) % 2)
            (sample_bytes samples) (omega (arith, data_size)))
      ∙ walk_end fuel (with_data rate (sample_bytes samples)) [] (omega arith)

  walk_file :
      (fuel rate : ℕ)
      → rate < 2 ^ 32
      → walk (suc (suc (suc fuel))) nothing_found (fmt_chunk rate (data_chunk samples))
        ≡ ended (with_data rate (sample_bytes samples))
  walk_file fuel rate h =
      let rest = data_chunk samples in
      let size = fmt_size rate rest in
      walk_found (suc (suc fuel)) nothing_found (with_fmt rate) (fmt_chunk rate rest) (omega arith)
        (ap (λ (k : ℕ). read_chunk nothing_found (fmt_chunk rate rest) k (fmt_fields rate rest))
            size
          ∙ fmt_found rate rest h)
      ∙ ap
          (λ (k : ℕ).
            walk (suc (suc fuel)) (with_fmt rate) (drop (k + k % 2) (fmt_fields rate rest)))
          size
      ∙ walk_data fuel rate

finish-with_data :
    (rate : ℕ) (pcm : List ℕ) → 0 < rate → finish (with_data rate pcm) ≡ ok (interleaved pcm) rate
unfolding finish
finish-with_data rate pcm h = ground arith

decode_walked :
    (b : List ℕ) (p : Found)
    → 12 ≤ length b
    → (is_id b b'R' b'I' b'F' b'F' && is_id (drop 8 b) b'W' b'A' b'V' b'E') ≡ true
    → walk (length b) nothing_found (drop 12 b) ≡ ended p
    → decode b ≡ finish p
unfolding decode
decode_walked b p long ids walked =
    let fits : ltb (length b) 12 ≡ false = ground arith in rw (fits, ids, walked)

encode-ids :
    (samples : List ℕ) (rate : ℕ)
    → (is_id (encode samples rate) b'R' b'I' b'F' b'F'
        && is_id (drop 8 (encode samples rate)) b'W' b'A' b'V' b'E')
      ≡ true
unfolding encode is_id
encode-ids samples rate = refl

encode-walk :
    (samples : List ℕ) (rate : ℕ)
    → length samples * 2 < 2 ^ 32
    → rate < 2 ^ 32
    → walk (length (encode samples rate)) nothing_found (drop 12 (encode samples rate))
      ≡ ended (with_data rate (sample_bytes samples))
unfolding encode
encode-walk samples rate fits bound =
    walk_file samples fits (length (drop 3 (encode samples rate))) rate bound

length-encode : (samples : List ℕ) (rate : ℕ) → 12 ≤ length (encode samples rate)
unfolding encode
length-encode samples rate = omega arith

-- For samples that are 16-bit words, of fewer than 2 ^ 32 bytes in all, and a positive rate below
-- 2 ^ 32, decoding the encoded file gives the samples and the rate back.
pub decode-encode :
    (samples : List ℕ) (rate : ℕ)
    → All (λ s. s < 65536) samples
    → length samples * 2 < 2 ^ 32
    → 0 < rate
    → rate < 2 ^ 32
    → decode (encode samples rate) ≡ ok samples rate
decode-encode samples rate words fits pos bound =
    decode_walked (encode samples rate) (with_data rate (sample_bytes samples))
      (length-encode samples rate) (encode-ids samples rate) (encode-walk samples rate fits bound)
    ∙ finish-with_data rate (sample_bytes samples) pos
    ∙ ap (λ (l : List ℕ). ok l rate) (interleaved-sample_bytes samples words)
