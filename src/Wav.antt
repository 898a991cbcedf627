-- ===== src/Wav.antt =====
-- internal/audio/wav.go: mono PCM16 WAV files, written and read. A byte is a number below 256 and an
-- int16 sample its 16-bit pattern; an int has 64 bits, so no size or offset overflows. The reader's
-- offset is seen as the bytes from it on. What reads and writes the file system is left out.
pub mod Walk
pub mod RoundTrip
mod Tests
use gocalis.Common.{
  ℕ, zero, suc, ◌+◌, ◌-◌, ◌*◌, ◌/◌, ◌%◌, ◌^◌, ◌==◌, ltb, leb, Bool, true, false, not, ◌&&◌, ◌||◌,
  List, [], ◌∷◌, ◌++◌, if◌then◌else◌, length, take, drop, get_or,
}

-- putUint16LE and putUint32LE, in front of the rest of the buffer.
abbrev pub put_uint16 : ℕ → List ℕ → List ℕ
put_uint16 v rest = (v % 256) ∷ (v / 256 % 256) ∷ rest

abbrev pub put_uint32 : ℕ → List ℕ → List ℕ
put_uint32 v rest = (v % 256) ∷ (v / 256 % 256) ∷ (v / 65536 % 256) ∷ (v / 16777216 % 256) ∷ rest

-- uint16LE and uint32LE at an offset.
abbrev pub uint16_at : List ℕ → ℕ → ℕ
uint16_at b i = get_or b i 0 + 256 * get_or b (i + 1) 0

abbrev pub uint32_at : List ℕ → ℕ → ℕ
uint32_at b i =
    get_or b i 0
    + 256 * get_or b (i + 1) 0
    + 65536 * get_or b (i + 2) 0
    + 16777216 * get_or b (i + 3) 0

-- `byte(s)` and `byte(s >> 8)`
pub sample_bytes : List ℕ → List ℕ
sample_bytes [] = []
sample_bytes (s ∷ samples) = (s % 256) ∷ (s / 256 % 256) ∷ sample_bytes samples

-- The chunk identifiers.
abbrev pub riff_id : List ℕ → List ℕ
riff_id rest = b'R' ∷ b'I' ∷ b'F' ∷ b'F' ∷ rest

abbrev pub wave_id : List ℕ → List ℕ
wave_id rest = b'W' ∷ b'A' ∷ b'V' ∷ b'E' ∷ rest

abbrev pub fmt_id : List ℕ → List ℕ
fmt_id rest = b'f' ∷ b'm' ∷ b't' ∷ b' ' ∷ rest

abbrev pub data_id : List ℕ → List ℕ
data_id rest = b'd' ∷ b'a' ∷ b't' ∷ b'a' ∷ rest

-- The data chunk, and the fmt chunk in front of it.
abbrev pub data_chunk : List ℕ → List ℕ
data_chunk samples = data_id (put_uint32 (length samples * 2 % 2 ^ 32) (sample_bytes samples))

abbrev pub fmt_fields : ℕ → List ℕ → List ℕ
fmt_fields rate rest = put_uint16 1 (
    put_uint16 1 (
      put_uint32 (rate % 2 ^ 32)
        (put_uint32 (rate * 2 % 2 ^ 32) (put_uint16 2 (put_uint16 16 rest)))))

abbrev pub fmt_chunk : ℕ → List ℕ → List ℕ
fmt_chunk rate rest = fmt_id (put_uint32 16 (fmt_fields rate rest))

pub encode : List ℕ → ℕ → List ℕ
encode samples rate = riff_id (
    put_uint32 ((36 + length samples * 2) % 2 ^ 32) (wave_id (fmt_chunk rate (data_chunk samples))))

pub data WavError : Type 0 where
  too_short not_riff fmt_too_small unsupported_format missing_fmt missing_data : WavError
  unsupported_bits invalid_channels invalid_rate : WavError

-- `out_of_fuel` never comes back: see Walk.
pub data Decoded : Type 0 where
  ok : List ℕ → ℕ → Decoded
  err : WavError → Decoded
  out_of_fuel : Decoded

-- What the walk over the chunks has found.
pub record Found : Type 0 where
  pub rate : ℕ
  pub channels : ℕ
  pub bits : ℕ
  pub have_fmt : Bool
  pub have_data : Bool
  pub pcm : List ℕ

pub nothing_found : Found
nothing_found = record {
  rate = 0;
  channels = 0;
  bits = 0;
  have_fmt = false;
  have_data = false;
  pcm = [];
}

pub is_id : List ℕ → ℕ → ℕ → ℕ → ℕ → Bool
is_id b x y z w =
    get_or b 0 0 == x && (get_or b 1 0 == y && (get_or b 2 0 == z && get_or b 3 0 == w))

pub data Chunk : Type 0 where
  found : Found → Chunk
  refused : WavError → Chunk

-- The switch on the chunk's identifier.
pub read_fmt : Found → ℕ → List ℕ → Chunk
read_fmt p size body =
    if ltb size 16
    then refused fmt_too_small
    else if uint16_at body 0 == 1
    then found (record p {
      channels = uint16_at body 2;
      rate = uint32_at body 4;
      bits = uint16_at body 14;
      have_fmt = true;
    })
    else refused unsupported_format

pub read_chunk : Found → List ℕ → ℕ → List ℕ → Chunk
read_chunk p head size body =
    if is_id head b'f' b'm' b't' b' '
    then read_fmt p size body
    else if is_id head b'd' b'a' b't' b'a'
    then found (record p { pcm = take size body; have_data = true })
    else found p

-- A size past the end is cut to the bytes that are there.
pub chunk_size : List ℕ → List ℕ → ℕ
chunk_size head body =
    let size = uint32_at head 4 in if ltb (length body) size then length body else size

pub data Walked : Type 0 where
  ended : Found → Walked
  failed : WavError → Walked
  exhausted : Walked

-- The loop over the chunks, on fuel.
pub walk : ℕ → Found → List ℕ → Walked
walk zero p rest = exhausted
walk (suc fuel) p rest =
    let body = drop 8 rest in
    let size = chunk_size rest body in
    let next = λ (q : Found). walk fuel q (drop (size + size % 2) body) in
    let go : Walked = elim (read_chunk p rest size body) [
      | found q ↦ next q
      | refused e ↦ failed e
    ] in
    if ltb (length rest) 8 then ended p else go

-- The samples of the data chunk; a last odd byte is left out.
pub interleaved : List ℕ → List ℕ
interleaved [] = []
interleaved (a ∷ []) = []
interleaved (a ∷ b ∷ pcm) = (a + 256 * b) ∷ interleaved pcm

-- The positive and the negative part of the sum of int16 patterns.
pub sum_pos : List ℕ → ℕ
sum_pos [] = 0
sum_pos (s ∷ ss) = (if ltb s 32768 then s else 0) + sum_pos ss

pub sum_neg : List ℕ → ℕ
sum_neg [] = 0
sum_neg (s ∷ ss) = (if ltb s 32768 then 0 else 65536 - s) + sum_neg ss

-- `int16(acc / numChannels)`: the division goes towards zero.
pub mean : ℕ → List ℕ → ℕ
mean channels frame =
    let p = sum_pos frame in
    let n = sum_neg frame in
    if leb n p then (p - n) / channels % 65536 else (65536 - (n - p) / channels % 65536) % 65536

pub downmix : ℕ → ℕ → List ℕ → List ℕ
downmix zero channels samples = []
downmix (suc frames) channels samples =
    mean channels (take channels samples) ∷ downmix frames channels (drop channels samples)

-- The tests behind the walk, and the result.
pub finish : Found → Decoded
finish p =
    let samples = interleaved p.pcm in
    if not p.have_fmt
    then err missing_fmt
    else if not p.have_data
    then err missing_data
    else if not (p.bits == 16)
    then err unsupported_bits
    else if ltb p.channels 1
    then err invalid_channels
    else if p.rate == 0
    then err invalid_rate
    else if p.channels == 1
    then ok samples p.rate
    else ok (downmix (length samples / p.channels) p.channels samples) p.rate

pub decode : List ℕ → Decoded
decode b =
    if ltb (length b) 12
    then err too_short
    else if not (is_id b b'R' b'I' b'F' b'F' && is_id (drop 8 b) b'W' b'A' b'V' b'E')
    then err not_riff
    else elim (walk (length b) nothing_found (drop 12 b)) [
      | ended p ↦ finish p
      | failed e ↦ err e
      | exhausted ↦ out_of_fuel
    ]
