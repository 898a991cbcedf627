-- ===== src/MuLaw/Tests.antt =====
-- Runs of the codec, and its theorems at concrete inputs.
use gocalis.Common.{◌+◌, ◌-◌, ◌*◌, ◌≤◌, ◌<◌, ◌≡◌, refl, arith, min}
use gocalis.MuLaw.{encode, decode, magnitude, clip, is_negative}
use gocalis.MuLaw.Codec.{decode-encode_error, encode-decode}

silence : encode 0 ≡ 255
unfolding encode
silence = refl

full_scale : decode (encode 32767) ≡ 32124
unfolding encode decode
full_scale = refl

-- The magnitude of -32768 wraps around to itself, is not clipped, and comes out as the byte 127,
-- which stands for 0.
full_scale_negative : (encode 32768 ≡ 127) × (decode (encode 32768) ≡ 0)
unfolding encode decode
full_scale_negative = (refl, refl)

decode-encode_error_example :
    (32 * (magnitude (decode (encode 40000)) - min (magnitude 40000) clip)
      ≤ min (magnitude 40000) clip + 132)
    × (32 * (min (magnitude 40000) clip - magnitude (decode (encode 40000)))
        ≤ min (magnitude 40000) clip + 132)
    × (0 < magnitude (decode (encode 40000))
        → is_negative (decode (encode 40000)) ≡ is_negative 40000)
decode-encode_error_example = decode-encode_error 40000 (omega arith) (omega arith)

encode-decode_example : encode (decode 5) ≡ 5
encode-decode_example = (encode-decode 5 (omega arith)).0 (omega arith)
