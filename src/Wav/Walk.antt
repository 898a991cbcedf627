-- ===== src/Wav/Walk.antt =====
-- The walk over the chunks ends.
use gocalis.Common.{
  ℕ, zero, suc, ◌+◌, ◌%◌, ◌≤◌, ◌<◌, ◌≡◌, ◌≢◌, refl, true, false, List, arith, length, length-drop,
  drop, ltb, inl, inr, ◌⊎◌, dec_lt, sym, ◌∙◌,
}
use gocalis.Wav.{
  Found, Chunk, found, refused, Walked, ended, failed, exhausted, out_of_fuel, WavError, read_chunk,
  chunk_size, walk, finish, decode, nothing_found,
}

pub Chunk-cases : (c : Chunk) → ((q : Found) × (c ≡ found q)) ⊎ ((e : WavError) × (c ≡ refused e))
Chunk-cases (found q) = inl (q, refl)
Chunk-cases (refused e) = inr (e, refl)

finish-ne-out_of_fuel : (p : Found) → finish p ≢ out_of_fuel
unfolding finish
finish-ne-out_of_fuel p = ground arith

Walked-cases :
    (w : Walked)
    → ((p : Found) × (w ≡ ended p) × (finish p ≢ out_of_fuel))
      ⊎ ((e : WavError) × (w ≡ failed e))
      ⊎ (w ≡ exhausted)
Walked-cases (ended p) = inl (p, refl, finish-ne-out_of_fuel p)
Walked-cases (failed e) = inr (inl (e, refl))
Walked-cases exhausted = inr (inr refl)

-- One round that finds a chunk.
pub walk_found :
    (fuel : ℕ) (p q : Found) (rest : List ℕ)
    → 8 ≤ length rest
    → read_chunk p rest (chunk_size rest (drop 8 rest)) (drop 8 rest) ≡ found q
    → walk (suc fuel) p rest
      ≡ walk fuel q
          (drop (chunk_size rest (drop 8 rest) + chunk_size rest (drop 8 rest) % 2) (drop 8 rest))
unfolding walk
walk_found fuel p q rest h e = let long : ltb (length rest) 8 ≡ false = ground arith in rw (long, e)

walk_refused :
    (fuel : ℕ) (p : Found) (x : WavError) (rest : List ℕ)
    → 8 ≤ length rest
    → read_chunk p rest (chunk_size rest (drop 8 rest)) (drop 8 rest) ≡ refused x
    → walk (suc fuel) p rest ≡ failed x
unfolding walk
walk_refused fuel p x rest h e =
    let long : ltb (length rest) 8 ≡ false = ground arith in rw (long, e)

pub walk_end :
    (fuel : ℕ) (p : Found) (rest : List ℕ) → length rest < 8 → walk (suc fuel) p rest ≡ ended p
unfolding walk
walk_end fuel p rest h = let short : ltb (length rest) 8 ≡ true = ground arith in rw short

-- Each chunk takes eight bytes at least, so that fuel for every byte is enough.
walk-ne-exhausted :
    (fuel : ℕ) (p : Found) (rest : List ℕ) → length rest < fuel → walk fuel p rest ≢ exhausted
walk-ne-exhausted zero p rest h = absurd (omega arith)
walk-ne-exhausted (suc fuel) p rest h = elim (dec_lt (length rest) 8) [
  | yes short ↦ λ e. cc (walk_end fuel p rest short)
  | no long ↦ elim (Chunk-cases (read_chunk p rest (chunk_size rest (drop 8 rest)) (drop 8 rest))) [
    | inl (q, e) ↦
        let size = chunk_size rest (drop 8 rest) in
        let next = drop (size + size % 2) (drop 8 rest) in
        λ k.
          walk-ne-exhausted fuel q next
            (omega (arith, length-drop (size + size % 2) (drop 8 rest), length-drop 8 rest))
            (sym (walk_found fuel p q rest (omega arith) e) ∙ k)
    | inr (x, e) ↦ λ k. cc (walk_refused fuel p x rest (omega arith) e)
  ]
]

-- Decoding ends on every input, with samples or with an error.
pub decode_total : (b : List ℕ) → decode b ≢ out_of_fuel
unfolding decode
decode_total b = ground (
  arith,
  walk-ne-exhausted (length b) nothing_found (drop 12 b),
  length-drop 12 b,
  Walked-cases (walk (length b) nothing_found (drop 12 b)),
)
