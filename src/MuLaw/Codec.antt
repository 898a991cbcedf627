-- ===== src/MuLaw/Codec.antt =====
-- The codec's error, and the bytes that it keeps.
use gocalis.Common.{
  ℕ, zero, suc, ◌+◌, ◌-◌, ◌*◌, ◌/◌, ◌%◌, ◌≤◌, ◌<◌, ◌≡◌, ◌≢◌, refl, ap, ◌∙◌, Bool, true, false,
  Bool-cases, inl, inr, ◌||◌, arith, leb, if◌then◌else◌, ◌==◌, min,
}
use gocalis.MuLaw.{
  exponent_of, mantissa_of, expand, magnitude, biased, clip, is_negative, pack, encode, decode,
}
use gocalis.MuLaw.Bands.{exponent_of-InBand, band_error, expand_bounds}

decode_fields :
    (b e m : ℕ) (negative : Bool)
    → (255 - b) / 16 % 8 ≡ e
    → (255 - b) % 16 ≡ m
    → leb 128 (255 - b) ≡ negative
    → decode b ≡ (if negative then (65536 + 132 - expand e m) % 65536 else expand e m - 132)
unfolding decode
decode_fields b e m negative he hm hn = rw (he, hm, hn)

unpack :
    (negative : Bool) (e m : ℕ)
    → e ≤ 7
    → m < 16
    → decode (pack negative e m)
      ≡ (if negative then (65536 + 132 - expand e m) % 65536 else expand e m - 132)
unfolding pack
unpack negative e m h k =
    decode_fields (pack negative e m) e m negative (ground arith) (ground arith) (ground arith)

mantissa_of-lt : (s e : ℕ) → mantissa_of s e < 16
unfolding mantissa_of
mantissa_of-lt s e = omega arith

-- The biased magnitude of all but -32768.
biased_lem : (x : ℕ) → x < 65536 → x ≢ 32768 → biased (magnitude x) ≡ min (magnitude x) clip + 132
unfolding biased magnitude
biased_lem x h k = ground arith

magnitude-lt : (x : ℕ) → x < 65536 → x ≢ 32768 → magnitude x < 32768
unfolding magnitude
magnitude-lt x h k = ground arith

-- What is decoded, as sign and magnitude.
decoded_parts :
    (negative : Bool) (v : ℕ)
    → 132 ≤ v
    → v ≤ 32256
    → let y = if negative then (65536 + 132 - v) % 65536 else v - 132 in
      (magnitude y ≡ v - 132) × (0 < v - 132 → is_negative y ≡ negative)
unfolding magnitude
decoded_parts negative v h k = ground arith

-- What a sample is encoded by: its sign, and the band and the step of its biased magnitude.
encode_lem :
    (x : ℕ)
    → encode x
      ≡ pack
          (is_negative x)
          (exponent_of (biased (magnitude x)))
          (mantissa_of (biased (magnitude x)) (exponent_of (biased (magnitude x))))
unfolding encode
encode_lem x = refl

-- A sample that is not -32768 comes back with its sign, unless it comes back as 0, and with its
-- magnitude, clipped at 32635, up to a 32nd of that magnitude and the bias.
pub decode-encode_error :
    (x : ℕ)
    → x < 65536
    → x ≢ 32768
    → let y = decode (encode x) in
      let c = min (magnitude x) clip in
      (32 * (magnitude y - c) ≤ c + 132)
      × (32 * (c - magnitude y) ≤ c + 132)
      × (0 < magnitude y → is_negative y ≡ is_negative x)
decode-encode_error x h k =
    let c = min (magnitude x) clip in
    let s = biased (magnitude x) in
    let e = exponent_of s in
    let m = mantissa_of s e in
    let v = expand e m in
    let sum = biased_lem x h k in
    let band = exponent_of-InBand s (omega (arith, sum)) (omega (arith, sum)) in
    let close_ = band_error e s band in
    let (low, high) = expand_bounds e m band.small (mantissa_of-lt s e) in
    let decoded =
      ap decode (encode_lem x) ∙ unpack (is_negative x) e m band.small (mantissa_of-lt s e) in
    let parts = decoded_parts (is_negative x) v low high in
    rw decoded (
      omega (arith, parts.0, close_.0, close_.1, sum),
      omega (arith, parts.0, close_.0, close_.1, sum),
      λ pos. parts.1 (omega (arith, parts.0)),
    )

-- Whether a byte is 127, the second code of 0, or comes back.
comes_back : ℕ → Bool
comes_back b = b == 127 || encode (decode b) == b

come_back_below : ℕ → Bool
unfolding comes_back
come_back_below zero = true
come_back_below (suc top) = if comes_back top then come_back_below top else false

-- Checked byte by byte.
come_back_table : come_back_below 256 ≡ true
unfolding come_back_below encode decode
come_back_table = refl

below_table : (top b : ℕ) → b < top → come_back_below top ≡ true → comes_back b ≡ true
unfolding come_back_below
below_table (suc top) b h t = elim (Bool-cases (comes_back top)) [
  | inl e ↦ ground (arith, below_table top b)
  | inr e ↦ ground arith
]
below_table zero b h t = ground arith

kept : (b : ℕ) → b < 256 → (b == 127 || encode (decode b) == b) ≡ true
unfolding comes_back
kept b h = below_table 256 b h come_back_table

second_zero : encode (decode 127) ≡ 255
unfolding encode decode
second_zero = refl

-- Every byte but 127 is what its decoded sample is encoded by; 127 and 255 both stand for 0.
pub encode-decode :
    (b : ℕ) → b < 256 → (b ≢ 127 → encode (decode b) ≡ b) × (b ≡ 127 → encode (decode b) ≡ 255)
encode-decode b h = (
  λ other. ground (arith, kept b h),
  λ same. ap (λ (n : ℕ). encode (decode n)) same ∙ second_zero,
)
