-- ===== src/Wav/Tests.antt =====
-- Files read and written, and the theorems at concrete inputs.
use gocalis.Common.{◌≡◌, refl, [], ◌∷◌, arith}
use gocalis.Wav.{
  encode, decode, ok, walk, read_chunk, read_fmt, chunk_size, is_id, finish, interleaved,
  nothing_found, sample_bytes, downmix, mean, sum_pos, sum_neg,
}
use gocalis.Wav.RoundTrip.{decode-encode}

reads_back : decode (encode (1 ∷ 65535 ∷ 258 ∷ []) 8000) ≡ ok (1 ∷ 65535 ∷ 258 ∷ []) 8000
unfolding decode encode walk read_chunk read_fmt chunk_size is_id finish interleaved nothing_found
    sample_bytes
reads_back = refl

-- -1 and 3 come to 1, -1 and -2 to -1.
downmixes : downmix 2 2 (65535 ∷ 3 ∷ 65535 ∷ 65534 ∷ []) ≡ 1 ∷ 65535 ∷ []
unfolding downmix mean sum_pos sum_neg
downmixes = refl

decode-encode_example : decode (encode (1 ∷ 65535 ∷ []) 16000) ≡ ok (1 ∷ 65535 ∷ []) 16000
decode-encode_example =
    decode-encode (1 ∷ 65535 ∷ []) 16000 (omega arith) (omega arith) (omega arith) (omega arith)
