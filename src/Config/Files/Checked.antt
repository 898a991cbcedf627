-- ===== src/Config/Files/Checked.antt =====
-- What a list of paths that passes the checks of ValidateModelFiles says of each path.
use gocalis.Common.{
  ℕ, ◌≡◌, refl, ap, ◌↔◌, All-map, Bool, true, false, Option, none, some, List, [], ◌∷◌, ◌++◌, All,
  arith, Option-cases, inl, inr,
}
use gocalis.Config.{Text, Floats}
use gocalis.Config.Files.{
  Stat, missing, regular, directory, special, FileError, when, file_error, dir_error, check_paths,
  files_then_dirs,
}

module _ (F : Floats) (join : Text → ℕ → Text) (stat : Text → Stat) where
  check_paths-none :
      (judge : Text → Stat → Option FileError) (paths : List Text)
      → check_paths F join stat judge paths ≡ none
      → All (λ p. judge p (stat p) ≡ none) paths
  unfolding check_paths
  check_paths-none judge [] h = tt
  check_paths-none judge (path ∷ paths) h = elim (Option-cases (judge path (stat path))) [
    | inl fine ↦ (fine, check_paths-none judge paths (ground (arith, h, fine)))
    | inr (e, bad) ↦ absurd (ground (arith, h, bad))
  ]

  file_regular : (path : Text) (s : Stat) → file_error F join stat path s ≡ none → s ≡ regular
  file_regular path regular h = refl
  file_regular path missing h = absurd (ground (arith, h))
  file_regular path directory h = absurd (ground (arith, h))
  file_regular path special h = absurd (ground (arith, h))

  dir_directory : (path : Text) (s : Stat) → dir_error F join stat path s ≡ none → s ≡ directory
  dir_directory path directory h = refl
  dir_directory path missing h = absurd (ground (arith, h))
  dir_directory path regular h = absurd (ground (arith, h))
  dir_directory path special h = absurd (ground (arith, h))

  pub both_none :
      (a b : Option FileError) → files_then_dirs F join stat a b ≡ none → (a ≡ none) × (b ≡ none)
  both_none none b h = (refl, h)
  both_none (some e) b h = absurd (ground (arith, h))

  pub none-both :
      (a b : Option FileError) → a ≡ none → b ≡ none → files_then_dirs F join stat a b ≡ none
  none-both a b e f = rw e f

  none-check_paths :
      (judge : Text → Stat → Option FileError) (paths : List Text)
      → All (λ p. judge p (stat p) ≡ none) paths
      → check_paths F join stat judge paths ≡ none
  unfolding check_paths
  none-check_paths judge [] h = refl
  none-check_paths judge (path ∷ paths) h =
      let rest = none-check_paths judge paths h.1 in ground (arith, h.0, rest)

  abbrev pub AllRegular : List Text → Type 0
  AllRegular paths = All (λ p. stat p ≡ regular) paths

  pub regulars-checked :
      (paths : List Text)
      → (check_paths F join stat (file_error F join stat) paths ≡ none) ↔ AllRegular paths
  regulars-checked paths = (
    λ h.
        All-map (λ p. file_error F join stat p (stat p) ≡ none) (λ p. stat p ≡ regular)
          (λ p e. file_regular p (stat p) e) paths
          (check_paths-none (file_error F join stat) paths h),
    λ h. none-check_paths (file_error F join stat) paths (
        All-map (λ p. stat p ≡ regular) (λ p. file_error F join stat p (stat p) ≡ none)
          (λ p e. ap (file_error F join stat p) e) paths h),
  )

  pub directories-checked :
      (paths : List Text)
      → (check_paths F join stat (dir_error F join stat) paths ≡ none)
        ↔ All (λ p. stat p ≡ directory) paths
  directories-checked paths = (
    λ h.
        All-map (λ p. dir_error F join stat p (stat p) ≡ none) (λ p. stat p ≡ directory)
          (λ p e. dir_directory p (stat p) e) paths
          (check_paths-none (dir_error F join stat) paths h),
    λ h. none-check_paths (dir_error F join stat) paths (
        All-map (λ p. stat p ≡ directory) (λ p. dir_error F join stat p (stat p) ≡ none)
          (λ p e. ap (dir_error F join stat p) e) paths h),
  )

  pub All-parts : (xs ys : List Text) → AllRegular (xs ++ ys) → AllRegular xs × AllRegular ys
  All-parts [] ys h = (tt, h)
  All-parts (x ∷ xs) ys h = let (front, back) = All-parts xs ys h.1 in ((h.0, front), back)

  pub when-regular :
      (b : Bool) (paths : List Text)
      → AllRegular (when F join b paths)
      → b ≡ true
      → AllRegular paths
  when-regular true paths h e = h
  when-regular false paths h e = absurd (ground (arith, e))

  pub regular-when :
      (b : Bool) (paths : List Text)
      → (b ≡ true → AllRegular paths)
      → AllRegular (when F join b paths)
  regular-when true paths h = h refl
  regular-when false paths h = tt
