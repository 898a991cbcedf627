-- ===== src/PacketWindow/Drain.antt =====
-- The loop of drain ends, and what it emits.
use gocalis.Common.{
  ℕ, zero, suc, ◌+◌, ◌-◌, ◌*◌, ◌%◌, ◌≤◌, ◌<◌, ◌≡◌, refl, subst, sym, ap, ◌∙◌, Bool, true, false,
  not, ◌&&◌, none, some, List, [], ◌∷◌, All, All-map, arith, if◌then◌else◌, length, Bool-cases,
  Option-cases, inl, inr, ℕ_discrete,
}
use gocalis.Common.Assoc.{
  lookup, delete, IsUnique, delete-IsUnique, lookup-delete, lookup-All, length-delete,
}
use gocalis.PacketWindow.{
  Packet, Window, sub16, emit, await, skip, is_young, and_out, drain_loop, drain,
}
use gocalis.PacketWindow.Serial.{IsAhead, Has, nearest-Has, delete-IsAhead, nearest-IsAhead}

module _ {A : Type 0} where
  pub record IsValid (w : Window A) : Type 0 where
    pub unique : IsUnique w.pending
    pub ahead : All (IsAhead w.next) w.pending
    pub cursor : w.next < 65536
    pub unused : w.initialized ≡ false → w.pending ≡ []

  -- Packets in serial order from cursor to cursor: each less than 2 ^ 15 ahead of the number behind
  -- its predecessor.
  unfoldable pub InOrder : ℕ → List (Packet A) → ℕ → Type 0
  InOrder next [] end = next ≡ end
  InOrder next (p ∷ out) end =
      (sub16 p.sequence_number next < 32768) × InOrder ((p.sequence_number + 1) % 65536) out end

  -- What a drain of `w` makes of it: each packet emitted was pending, each packet is emitted or stays
  -- pending, and each number that the cursor has passed is an emitted packet's or counted as lost.
  pub record Drained (w v : Window A) (out : List (Packet A)) : Type 0 where
    pub valid : IsValid v
    pub ordered : InOrder w.next out v.next
    pub taken : All (λ p. lookup p.sequence_number w.pending ≡ some p) out
    pub conserved : length out + length v.pending ≡ length w.pending
    pub more_lost : w.lost ≤ v.lost
    pub passed : v.next ≡ (w.next + length out + (v.lost - w.lost)) % 65536
    pub same_rejected : v.rejected ≡ w.rejected
    pub same_initialized : v.initialized ≡ w.initialized

  delete-nil : (k : ℕ) (m : List (ℕ × Packet A)) → m ≡ [] → delete k m ≡ []
  unfolding delete
  delete-nil k m h = ap (delete k) h

  module _ (w : Window A) (p : Packet A) (v : IsValid w)
      (found : lookup w.next w.pending ≡ some p) where
    pub at_cursor : IsAhead w.next (w.next, p)
    at_cursor = lookup-All (IsAhead w.next) w.next p w.pending found v.ahead

    emit-IsValid : IsValid (emit w)
    unfolding emit
    emit-IsValid = record {
      unique = delete-IsUnique w.next w.pending v.unique;
      ahead = delete-IsAhead w.next w.pending v.cursor v.unique v.ahead;
      cursor = omega arith;
      unused = λ e. delete-nil w.next w.pending (v.unused e);
    }

    still_pending :
        (out : List (Packet A))
        → All (λ q. lookup q.sequence_number (delete w.next w.pending) ≡ some q) out
        → All (λ q. lookup q.sequence_number w.pending ≡ some q) out
    still_pending =
        All-map _ _ λ q h. ground (arith, lookup-delete w.next q.sequence_number w.pending v.unique)

    emit-Drained :
        (u : Window A) (out : List (Packet A)) → Drained (emit w) u out → Drained w u (p ∷ out)
    unfolding emit InOrder
    emit-Drained u out d = record {
      valid = d.valid;
      ordered = (
        omega (arith, at_cursor.filed),
        subst (λ (s : ℕ). InOrder ((s + 1) % 65536) out u.next) (sym at_cursor.filed) d.ordered,
      );
      taken = (ground (arith, at_cursor.filed), still_pending out d.taken);
      conserved = omega (arith, d.conserved, length-delete w.next p w.pending found);
      more_lost = d.more_lost;
      passed = omega (arith, d.passed, v.cursor);
      same_rejected = d.same_rejected;
      same_initialized = d.same_initialized;
    }

  skip-IsValid : (w : Window A) → IsValid w → IsValid (skip w)
  unfolding skip
  skip-IsValid w v = record {
    unique = v.unique;
    ahead = nearest-IsAhead w.next w.pending v.cursor v.ahead;
    cursor = omega arith;
    unused = v.unused;
  }

  await-same :
      (w : Window A) (now : ℕ)
      → ((await w now).pending ≡ w.pending)
        × ((await w now).next ≡ w.next)
        × ((await w now).lost ≡ w.lost)
        × ((await w now).rejected ≡ w.rejected)
        × ((await w now).initialized ≡ w.initialized)
  unfolding await
  await-same w now = ground arith

  await-IsValid : (w : Window A) (now : ℕ) → IsValid w → IsValid (await w now)
  unfolding await
  await-IsValid w now v = ground arith

  lookup-pos : (k : ℕ) (p : Packet A) (m : List (ℕ × Packet A)) → lookup k m ≡ some p → 0 < length m
  unfolding lookup
  lookup-pos k p [] h = cc
  lookup-pos k p (e ∷ m) h = omega arith

  idle-Drained : (w : Window A) → IsValid w → Drained w w []
  unfolding InOrder
  idle-Drained w v = record {
    valid = v;
    ordered = refl;
    taken = tt;
    conserved = omega arith;
    more_lost = omega arith;
    passed = omega (arith, v.cursor);
    same_rejected = refl;
    same_initialized = refl;
  }

  await-Drained : (w : Window A) (now : ℕ) → IsValid w → Drained w (await w now) []
  unfolding await
  await-Drained w now v = ground (arith, idle-Drained w v, await-IsValid w now v)

  skip-Drained :
      (w u : Window A) (p : Packet A) (out : List (Packet A))
      → IsValid w
      → Drained (skip w) u (p ∷ out)
      → Drained w u (p ∷ out)
  unfolding skip InOrder
  skip-Drained w u p out v d =
      let a = lookup-All (IsAhead w.next) p.sequence_number p w.pending d.taken.0 v.ahead in
      record {
        valid = d.valid;
        ordered = (a.ahead, d.ordered.1);
        taken = d.taken;
        conserved = d.conserved;
        more_lost = omega (arith, d.more_lost);
        passed = omega (arith, d.passed, d.more_lost, v.cursor);
        same_rejected = d.same_rejected;
        same_initialized = d.same_initialized;
      }

  -- The three ways that a round goes.
  round_empty :
      (f : ℕ) (w : Window A) (now : ℕ) (force : Bool)
      → length w.pending ≡ 0
      → drain_loop (suc f) w now force ≡ some (w, [])
  unfolding drain_loop
  round_empty f w now force h = ground arith

  round_found :
      (f : ℕ) (w : Window A) (p : Packet A) (now : ℕ) (force : Bool)
      → lookup w.next w.pending ≡ some p
      → drain_loop (suc f) w now force ≡ and_out p (drain_loop f (emit w) now force)
  unfolding drain_loop
  round_found f w p now force h = ground (arith, lookup-pos w.next p w.pending h)

  round_gap :
      (f : ℕ) (w : Window A) (now : ℕ) (force : Bool)
      → 0 < length w.pending
      → lookup w.next w.pending ≡ none
      → drain_loop (suc f) w now force ≡ (
          if not force && is_young (await w now) now
          then some (await w now, [])
          else drain_loop f (skip (await w now)) now false)
  unfolding drain_loop
  round_gap f w now force pos h = ground arith

  -- What a call of the loop comes to.
  abbrev Ends : ℕ → Window A → ℕ → Bool → Type 0
  Ends f w now force =
      (v : Window A) × (out : List (Packet A)) × (drain_loop f w now force ≡ some (v, out))
      × Drained w v out
      × (force ≡ true → 0 < length w.pending → 0 < length out)

  Ends-found :
      (f : ℕ) (w : Window A) (p : Packet A) (now : ℕ) (force : Bool)
      → IsValid w
      → lookup w.next w.pending ≡ some p
      → Ends f (emit w) now force
      → Ends (suc f) w now force
  Ends-found f w p now force v found (u, out, e, d, forced) = (
    u,
    p ∷ out,
    rw (round_found f w p now force found, e),
    emit-Drained w p v found u out d,
    λ _ _. omega arith,
  )

  await_back :
      (w u : Window A) (now : ℕ) (out : List (Packet A))
      → Drained (await w now) u out
      → Drained w u out
  await_back w u now out d =
      let (pending, next, lost, rejected, initialized) = await-same w now in
      record {
        valid = d.valid;
        ordered = subst (λ (n : ℕ). InOrder n out u.next) next d.ordered;
        taken =
            subst (λ (m : List (ℕ × Packet A)). All (λ p. lookup p.sequence_number m ≡ some p) out)
              pending d.taken;
        conserved = d.conserved ∙ ap (λ (m : List (ℕ × Packet A)). length m) pending;
        more_lost = omega arith;
        passed = ground (arith, d.passed);
        same_rejected = d.same_rejected ∙ rejected;
        same_initialized = d.same_initialized ∙ initialized;
      }

  Ends-skipped :
      (f : ℕ) (w : Window A) (now : ℕ) (force : Bool)
      → IsValid w
      → 0 < length w.pending
      → lookup w.next w.pending ≡ none
      → (not force && is_young (await w now) now) ≡ false
      → (p : Packet A) → lookup (skip (await w now)).next (skip (await w now)).pending ≡ some p
      → Ends f (emit (skip (await w now))) now false
      → Ends (suc (suc f)) w now force
  Ends-skipped f w now force v pos gap late p found (u, out, e, d, forced) =
      let a = await w now in
      let av = await-IsValid w now v in
      let sv = skip-IsValid a av in
      (
        u,
        p ∷ out,
        round_gap (suc f) w now force pos gap
            ∙ rw (late, round_found f (skip a) p now false found, e),
        await_back w u now (p ∷ out)
            (skip-Drained a u p out av (emit-Drained (skip a) p sv found u out d)),
        λ _ _. omega arith,
      )

  skip-Has : (w : Window A) → IsValid w → 0 < length w.pending → Has (skip w).next (skip w).pending
  unfolding skip
  skip-Has w v pos = nearest-Has w.next w.pending v.cursor v.ahead pos

  emit-shorter :
      (w : Window A) (p : Packet A)
      → lookup w.next w.pending ≡ some p
      → length (emit w).pending + 1 ≡ length w.pending
  unfolding emit
  emit-shorter w p h = omega (arith, length-delete w.next p w.pending h)

  skip-pending : (w : Window A) (now : ℕ) → (skip (await w now)).pending ≡ w.pending
  unfolding skip
  skip-pending w now = (await-same w now).0

  Ends-loop :
      (f : ℕ) (w : Window A) (now : ℕ) (force : Bool)
      → IsValid w
      → 2 * length w.pending + 1 < f
      → Ends f w now force
  Ends-loop zero w now force v h = absurd (omega arith)
  Ends-loop (suc zero) w now force v h = absurd (omega arith)
  Ends-loop (suc (suc f)) w now force v h = elim (ℕ_discrete (length w.pending) 0) [
    | yes none_left ↦ (
      w,
      [],
      round_empty (suc f) w now force none_left,
      idle-Drained w v,
      λ _ pos. absurd (omega arith),
    )
    | no some_left ↦ elim (Option-cases (lookup w.next w.pending)) [
      | inr (p, found) ↦ Ends-found (suc f) w p now force v found (
          Ends-loop (suc f) (emit w) now force (emit-IsValid w p v found)
            (omega (arith, emit-shorter w p found)))
      | inl gap ↦ elim (Bool-cases (not force && is_young (await w now) now)) [
        | inl young ↦ (
          await w now,
          [],
          round_gap (suc f) w now force (omega arith) gap ∙ rw young,
          await-Drained w now v,
          λ e _. ground arith,
        )
        | inr late ↦
            let s = skip (await w now) in
            let sv = skip-IsValid (await w now) (await-IsValid w now v) in
            let same = skip-pending w now in
            let (p, found) =
              skip-Has (await w now) (await-IsValid w now v)
                (omega (arith, ap (λ (m : List (ℕ × Packet A)). length m) (await-same w now).0)) in
            Ends-skipped f w now force v (omega arith) gap late p found (
              Ends-loop f (emit s) now false (emit-IsValid s p sv found) (
                omega
                  (arith, emit-shorter s p found, ap (λ (m : List (ℕ × Packet A)). length m) same)))
      ]
    ]
  ]

  -- Drain of a valid window ends. What it emits was pending and leaves in serial order; nothing else
  -- leaves, every number passed over is counted as lost, and a forced drain of a window that holds a
  -- packet emits one at least.
  pub drain_total :
      (w : Window A) (now : ℕ) (force : Bool)
      → IsValid w
      → (v : Window A) × (out : List (Packet A)) × (drain w now force ≡ some (v, out))
        × Drained w v out
        × (force ≡ true → 0 < length w.pending → 0 < length out)
  unfolding drain
  drain_total w now force v = Ends-loop (2 * length w.pending + 2) w now force v (omega arith)
