-- ===== src/Recorder/Newest.antt =====
-- The recorder keeps the newest samples.
use gocalis.Common.{
  ℕ, zero, suc, ◌+◌, ◌-◌, ◌≤◌, ◌≡◌, refl, ap, ◌∙◌, sym, arith, ltb, true, List, [], ◌∷◌, ◌++◌,
  if◌then◌else◌, length, drop, concat, length-append, length-drop, append_assoc, append-nil,
  drop-append, drop-drop, drop_none, take_all, take-append, Bool-cases, inl, inr,
}
use gocalis.Recorder.{shift_down, add, add_all}

-- The last samples of a list, at most so many.
abbrev pub newest : ℕ → List ℕ → List ℕ
newest limit xs = drop (length xs - limit) xs

drop_past : (xs ys : List ℕ) (k : ℕ) → drop (length xs + k) (xs ++ ys) ≡ drop k ys
drop_past [] ys k = ap (λ n. drop n ys) (omega arith)
drop_past (x ∷ xs) ys k =
    let e : suc (length xs) + k ≡ suc (length xs + k) = omega arith in
    ap (λ n. drop n (x ∷ (xs ++ ys))) e ∙ drop_past xs ys k

shift_down-drop : (excess : ℕ) (mic : List ℕ) → shift_down excess mic ≡ drop excess mic
unfolding shift_down
shift_down-drop excess mic =
    let n = length mic - excess in
    take-append n (drop excess mic) (drop n mic) (omega (arith, length-drop excess mic))
    ∙ take_all n (drop excess mic) (omega (arith, length-drop excess mic))

shifted-drop :
    (excess : ℕ) (mic : List ℕ)
    → (if ltb 0 excess then shift_down excess mic else mic) ≡ drop excess mic
shifted-drop zero mic = refl
shifted-drop (suc n) mic =
    let more : ltb 0 (suc n) ≡ true = ground arith in rw more (shift_down-drop (suc n) mic)

-- The window behind an addition of at most a window.
add_kept :
    (limit : ℕ) (mic kept : List ℕ)
    → length kept ≤ limit
    → (if ltb 0 (length mic + length kept - limit)
          then shift_down (length mic + length kept - limit) mic
          else mic)
        ++ kept
      ≡ newest limit (mic ++ kept)
add_kept limit mic kept h =
    let excess = length mic + length kept - limit in
    let same : length (mic ++ kept) - limit ≡ excess = omega (arith, length-append mic kept) in
    ap (λ l. l ++ kept) (shifted-drop excess mic)
    ∙ sym (drop-append excess mic kept (omega (arith, h)))
    ∙ ap (λ n. drop n (mic ++ kept)) (sym same)

add-newest :
    (limit : ℕ) (mic samples : List ℕ) → add limit mic samples ≡ newest limit (mic ++ samples)
unfolding add
add-newest limit mic samples = elim (Bool-cases (ltb limit (length samples))) [
  | inl long ↦
      let cut = length samples - limit in
      let kept = drop cut samples in
      let full : length kept ≡ limit = ground (arith, long, length-drop cut samples) in
      let all : length (mic ++ samples) - limit ≡ length mic + cut =
        ground (arith, long, length-append mic samples) in
      let both : length (mic ++ kept) - limit ≡ length mic + 0 =
        omega (arith, full, length-append mic kept) in
      rw long (
        add_kept limit mic kept (omega (arith, full))
        ∙ ap (λ n. drop n (mic ++ kept)) both
        ∙ drop_past mic kept 0
        ∙ sym (drop_past mic samples cut)
        ∙ ap (λ n. drop n (mic ++ samples)) (sym all))
  | inr short ↦ rw short (add_kept limit mic samples (ground (arith, short)))
]

newest-newest :
    (limit : ℕ) (xs ys : List ℕ) → newest limit (newest limit xs ++ ys) ≡ newest limit (xs ++ ys)
newest-newest limit xs ys =
    let cut = length xs - limit in
    let rest = length (drop cut xs ++ ys) - limit in
    let all : cut + rest ≡ length (xs ++ ys) - limit =
      omega (arith, length-append (drop cut xs) ys, length-append xs ys, length-drop cut xs) in
    ap (λ l. drop rest l) (sym (drop-append cut xs ys (omega arith)))
    ∙ drop-drop rest cut (xs ++ ys)
    ∙ ap (λ n. drop n (xs ++ ys)) all

add_all_from :
    (limit : ℕ) (past : List ℕ) (chunks : List (List ℕ))
    → add_all limit (newest limit past) chunks ≡ newest limit (past ++ concat chunks)
unfolding add_all
add_all_from limit past [] = ap (newest limit) (sym (append-nil past))
add_all_from limit past (samples ∷ chunks) =
    ap (λ mic. add_all limit mic chunks)
      (add-newest limit (newest limit past) samples ∙ newest-newest limit past samples)
    ∙ add_all_from limit (past ++ samples) chunks
    ∙ ap (newest limit) (append_assoc past samples (concat chunks))

-- The recorder holds the newest samples of all that were added, at most as many as its limit, however
-- the samples were split into chunks.
pub add_all-newest :
    (limit : ℕ) (chunks : List (List ℕ)) → add_all limit [] chunks ≡ newest limit (concat chunks)
add_all-newest limit chunks =
    ap (λ mic. add_all limit mic chunks) (sym (drop_none (0 - limit)))
    ∙ add_all_from limit [] chunks
