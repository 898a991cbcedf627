-- ===== src/PacketWindow/Serial.antt =====
-- Serial arithmetic on the pending packets.
use gocalis.Common.{
  ℕ, ◌+◌, ◌%◌, ◌≤◌, ◌<◌, ◌≡◌, ◌≢◌, refl, ◌⊎◌, inl, inr, some, List, [], ◌∷◌, All, All-map,
  Bool-cases, arith, ltb, if◌then◌else◌, length, ◌==◌,
}
use gocalis.Common.Assoc.{lookup, delete, IsUnique, delete-All}
use gocalis.PacketWindow.{Packet, sub16, nearest}

module _ {A : Type 0} where
  -- A pending packet is filed under its number, which is less than 2 ^ 15 ahead of the cursor.
  pub record IsAhead (next : ℕ) (e : ℕ × Packet A) : Type 0 where
    pub filed : e.1.sequence_number ≡ e.0
    pub word : e.0 < 65536
    pub ahead : sub16 e.0 next < 32768

  -- The cursor may pass over `d` numbers if no pending packet is nearer.
  pub move-IsAhead :
      (next d : ℕ) (e : ℕ × Packet A)
      → next < 65536
      → IsAhead next e
      → d ≤ sub16 e.0 next
      → IsAhead ((next + d) % 65536) e
  move-IsAhead next d e w a h = record { filed = a.filed; word = a.word; ahead = omega arith }

  ne-far :
      (next : ℕ) (e : ℕ × Packet A)
      → next < 65536
      → IsAhead next e × (e.0 ≢ next)
      → IsAhead ((next + 1) % 65536) e
  ne-far next e w (a, ne) = move-IsAhead next 1 e w a (omega arith)

  pub nearest-le :
      (next : ℕ) (m : List (ℕ × Packet A)) (b : ℕ)
      → (nearest next m b ≤ b) × All (λ e. nearest next m b ≤ sub16 e.0 next) m
  unfolding nearest
  nearest-le next [] b = (omega arith, tt)
  nearest-le next ((s, p) ∷ m) b =
      let d = sub16 s next in
      let c = if ltb d b then d else b in
      let ih = nearest-le next m c in (ground (arith, ih.0), (ground (arith, ih.0), ih.1))

  -- A packet is pending under a number.
  abbrev pub Has : ℕ → List (ℕ × Packet A) → Type 0
  Has k m = (p : Packet A) × (lookup k m ≡ some p)

  Has-cons : (k s : ℕ) (p : Packet A) (m : List (ℕ × Packet A)) → Has k m → Has k ((s, p) ∷ m)
  unfolding lookup
  Has-cons k s p m (q, h) = elim (Bool-cases (s == k)) [
    | inl e ↦ (p, ground arith)
    | inr e ↦ (q, ground arith)
  ]

  Has-head : (k s : ℕ) (p : Packet A) (m : List (ℕ × Packet A)) → k ≡ s → Has k ((s, p) ∷ m)
  unfolding lookup
  Has-head k s p m h = (p, ground arith)

  -- The minimum is taken at a pending packet, unless it is the start value.
  pub nearest-found :
      (next : ℕ) (m : List (ℕ × Packet A)) (b : ℕ)
      → next < 65536
      → All (IsAhead next) m
      → (nearest next m b ≡ b) ⊎ Has ((next + nearest next m b) % 65536) m
  unfolding nearest
  nearest-found next [] b w h = inl refl
  nearest-found next ((s, p) ∷ m) b w h =
      let d = sub16 s next in
      let k = λ (c : ℕ). (next + nearest next m c) % 65536 in
      elim (Bool-cases (ltb d b)) [
        | inl closer ↦ rw closer (elim (nearest-found next m d w h.1) [
          | inl e ↦ inr (Has-head (k d) s p m (omega (arith, h.0.word)))
          | inr found ↦ inr (Has-cons (k d) s p m found)
        ])
        | inr further ↦ rw further (elim (nearest-found next m b w h.1) [
          | inl e ↦ inl e
          | inr found ↦ inr (Has-cons (k b) s p m found)
        ])
      ]

  -- In a window with a pending packet the skip ends at one.
  pub nearest-Has :
      (next : ℕ) (m : List (ℕ × Packet A))
      → next < 65536
      → All (IsAhead next) m
      → 0 < length m
      → Has ((next + nearest next m 65535) % 65536) m
  nearest-Has next [] w h pos = absurd (omega arith)
  nearest-Has next (e ∷ m) w h pos = elim (nearest-found next (e ∷ m) 65535 w h) [
    | inl far ↦ absurd (omega (arith, (nearest-le next (e ∷ m) 65535).1.0, h.0.ahead))
    | inr found ↦ found
  ]

  -- What stays pending once the cursor's packet has left is ahead of the next number.
  pub delete-IsAhead :
      (next : ℕ) (m : List (ℕ × Packet A))
      → next < 65536
      → IsUnique m
      → All (IsAhead next) m
      → All (IsAhead ((next + 1) % 65536)) (delete next m)
  delete-IsAhead next m w u h =
      All-map (λ e. IsAhead next e × (e.0 ≢ next)) (IsAhead ((next + 1) % 65536))
        (λ e a. ne-far next e w a) (delete next m) (delete-All (IsAhead next) next m u h)

  skip-All :
      (next d : ℕ) (m : List (ℕ × Packet A))
      → next < 65536
      → All (IsAhead next) m
      → All (λ e. d ≤ sub16 e.0 next) m
      → All (IsAhead ((next + d) % 65536)) m
  skip-All next d [] w h k = tt
  skip-All next d (e ∷ m) w h k = (move-IsAhead next d e w h.0 k.0, skip-All next d m w h.1 k.1)

  pub nearest-IsAhead :
      (next : ℕ) (m : List (ℕ × Packet A))
      → next < 65536
      → All (IsAhead next) m
      → All (IsAhead ((next + nearest next m 65535) % 65536)) m
  nearest-IsAhead next m w h =
      skip-All next (nearest next m 65535) m w h (nearest-le next m 65535).1
