-- ===== src/Common/Assoc.antt =====
-- Go maps with numbers for keys, as association lists. The order of the list is the order in which
-- a loop over the map goes, which a program cannot choose.
use Prim.Native.Nat.{ℕ, ◌+◌}
use mathlib.Core.Path.{◌≡◌, refl, subst}
use mathlib.Core.Logic.{◌≢◌, inl, inr}
use mathlib.Core.List.{List, [], ◌∷◌}
use mathlib.Core.Option.{Option, none, some}
use native.Mathlib.Omega.{arith}
use gocalis.Common.Tests.{if◌then◌else◌, ◌==◌, if_both, Bool-cases}
use gocalis.Common.Lists.{length, All, All-both}

module _ {V : Type 0} where
  unfoldable pub lookup : ℕ → List (ℕ × V) → Option V
  lookup key [] = none
  lookup key ((at, value) ∷ entries) = if at == key then some value else lookup key entries

  -- `m[k] = v`
  unfoldable pub insert : ℕ → V → List (ℕ × V) → List (ℕ × V)
  insert key value [] = (key, value) ∷ []
  insert key value ((at, old) ∷ entries) =
      if at == key then (key, value) ∷ entries else (at, old) ∷ insert key value entries

  -- `delete(m, k)`
  unfoldable pub delete : ℕ → List (ℕ × V) → List (ℕ × V)
  delete key [] = []
  delete key ((at, old) ∷ entries) = if at == key then entries else (at, old) ∷ delete key entries

  -- No key stands twice.
  unfoldable pub IsUnique : List (ℕ × V) → Type 0
  IsUnique [] = Unit
  IsUnique ((key, value) ∷ entries) = (lookup key entries ≡ none) × IsUnique entries

  pub lookup-insert :
      (key at : ℕ) (value : V) (entries : List (ℕ × V))
      → lookup at (insert key value entries) ≡ (if key == at then some value else lookup at entries)
  unfolding lookup insert
  lookup-insert key at value [] = refl
  lookup-insert key at value ((other, old) ∷ entries) =
      ground (arith, lookup-insert key at value entries)

  pub lookup-delete :
      (key at : ℕ) (entries : List (ℕ × V))
      → IsUnique entries
      → lookup at (delete key entries) ≡ (if key == at then none else lookup at entries)
  unfolding lookup delete IsUnique
  lookup-delete key at [] u = ground arith
  lookup-delete key at ((other, old) ∷ entries) u = ground (arith, lookup-delete key at entries u.1)

  pub insert-IsUnique :
      (key : ℕ) (value : V) (entries : List (ℕ × V))
      → IsUnique entries
      → IsUnique (insert key value entries)
  unfolding insert IsUnique lookup
  insert-IsUnique key value [] u = (refl, tt)
  insert-IsUnique key value ((other, old) ∷ entries) u =
      ground (arith, insert-IsUnique key value entries u.1, lookup-insert key other value entries)

  pub delete-IsUnique :
      (key : ℕ) (entries : List (ℕ × V)) → IsUnique entries → IsUnique (delete key entries)
  unfolding delete IsUnique
  delete-IsUnique key [] u = tt
  delete-IsUnique key ((other, old) ∷ entries) u =
      ground (arith, delete-IsUnique key entries u.1, lookup-delete key other entries u.1)

  lookup-none-All :
      (key : ℕ) (entries : List (ℕ × V)) → lookup key entries ≡ none → All (λ e. e.0 ≢ key) entries
  unfolding lookup
  lookup-none-All key [] h = tt
  lookup-none-All key ((other, old) ∷ entries) h = ground (arith, lookup-none-All key entries)

  -- What holds of all entries holds of those that a deletion leaves, none of which has its key.
  pub delete-All {κ} :
      (P : ℕ × V → Type κ) (key : ℕ) (entries : List (ℕ × V))
      → IsUnique entries
      → All P entries
      → All (λ e. P e × (e.0 ≢ key)) (delete key entries)
  unfolding delete IsUnique
  delete-All P key [] u h = tt
  delete-All P key ((other, old) ∷ entries) u h = elim (Bool-cases (other == key)) [
    | inl hit ↦ rw hit (All-both _ _ entries h.1 (lookup-none-All key entries (ground arith)))
    | inr miss ↦ rw miss ((h.0, λ e. ground arith), delete-All P key entries u.1 h.1)
  ]

  pub insert-All {κ} :
      (P : ℕ × V → Type κ) (key : ℕ) (value : V) (entries : List (ℕ × V))
      → P (key, value)
      → All P entries
      → All P (insert key value entries)
  unfolding insert
  insert-All P key value [] p h = (p, tt)
  insert-All P key value ((other, old) ∷ entries) p h =
      if_both (All P) (other == key) (p, h.1) (h.0, insert-All P key value entries p h.1)

  pub lookup-All {κ} :
      (P : ℕ × V → Type κ) (key : ℕ) (value : V) (entries : List (ℕ × V))
      → lookup key entries ≡ some value
      → All P entries
      → P (key, value)
  unfolding lookup
  lookup-All P key value [] e h = cc
  lookup-All P key value ((other, old) ∷ entries) e h = elim (Bool-cases (other == key)) [
    | inl hit ↦
        let same : ◌≡◌ {A = ℕ × V} (other, old) (key, value) = ground arith in subst P same h.0
    | inr miss ↦ lookup-All P key value entries (ground arith) h.1
  ]

  pub length-insert :
      (key : ℕ) (value : V) (entries : List (ℕ × V))
      → lookup key entries ≡ none
      → length (insert key value entries) ≡ length entries + 1
  unfolding insert lookup
  length-insert key value [] h = omega arith
  length-insert key value ((other, old) ∷ entries) h =
      ground (arith, length-insert key value entries)

  pub length-delete :
      (key : ℕ) (value : V) (entries : List (ℕ × V))
      → lookup key entries ≡ some value
      → length entries ≡ length (delete key entries) + 1
  unfolding delete lookup
  length-delete key value [] h = cc
  length-delete key value ((other, old) ∷ entries) h =
      ground (arith, length-delete key value entries)
