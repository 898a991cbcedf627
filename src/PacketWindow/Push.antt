-- ===== src/PacketWindow/Push.antt =====
-- One push, or one tick of the timer, on a window that has had its first packet.
use gocalis.Common.{
  ℕ, ◌+◌, ◌-◌, ◌%◌, ◌≤◌, ◌<◌, ◌≡◌, refl, ◌∙◌, true, false, some, List, [], arith, leb, length,
  Bool-cases, inl, inr,
}
use gocalis.Common.Assoc.{insert-IsUnique, insert-All, length-insert}
use gocalis.PacketWindow.{Packet, Window, drain, is_rejected, admit, push_initialized}
use gocalis.PacketWindow.Serial.{IsAhead}
use gocalis.PacketWindow.Drain.{IsValid, InOrder, Drained, drain_total}

module _ {A : Type 0} where
  -- A valid window between calls holds three packets at most.
  pub record IsSettled (w : Window A) : Type 0 where
    pub valid : IsValid w
    pub few : length w.pending ≤ 3

  admit-IsValid :
      (w : Window A) (p : Packet A)
      → IsValid w
      → w.initialized ≡ true
      → p.sequence_number < 65536
      → is_rejected w p ≡ false
      → IsValid (admit w p)
  unfolding admit is_rejected
  admit-IsValid w p v ready word fresh = record {
    unique = insert-IsUnique p.sequence_number p w.pending v.unique;
    ahead =
        insert-All (IsAhead w.next) p.sequence_number p w.pending
          (record { filed = refl; word = word; ahead = ground arith }) v.ahead;
    cursor = v.cursor;
    unused = λ e. cc;
  }

  length-admit :
      (w : Window A) (p : Packet A)
      → is_rejected w p ≡ false
      → length (admit w p).pending ≡ length w.pending + 1
  unfolding admit is_rejected
  length-admit w p fresh = length-insert p.sequence_number p w.pending (ground arith)

  -- What a call makes of an initialised window: `arrived` packets have come in, and each of them and
  -- of those that were pending is emitted, pending or rejected.
  pub record Emits (w v : Window A) (arrived : ℕ) (out : List (Packet A)) : Type 0 where
    pub settled : IsSettled v
    pub ready : v.initialized ≡ true
    pub ordered : InOrder w.next out v.next
    pub conserved :
        length out + length v.pending + v.rejected ≡ length w.pending + w.rejected + arrived
    pub more_lost : w.lost ≤ v.lost
    pub passed : v.next ≡ (w.next + length out + (v.lost - w.lost)) % 65536

  Emits-rejected :
      (w : Window A)
      → IsSettled w
      → w.initialized ≡ true
      → Emits w (record w { rejected = w.rejected + 1 }) 1 []
  unfolding InOrder
  Emits-rejected w s ready = record {
    settled = record { valid = ground arith; few = s.few };
    ready = ready;
    ordered = refl;
    conserved = omega arith;
    more_lost = omega arith;
    passed = omega (arith, s.valid.cursor);
  }

  Emits-Drained :
      (w v : Window A) (out : List (Packet A))
      → w.initialized ≡ true
      → length v.pending ≤ 3
      → Drained w v out
      → Emits w v 0 out
  Emits-Drained w v out ready few d = record {
    settled = record { valid = d.valid; few = few };
    ready = d.same_initialized ∙ ready;
    ordered = d.ordered;
    conserved = omega (arith, d.conserved, d.same_rejected);
    more_lost = d.more_lost;
    passed = d.passed;
  }

  Emits-admitted :
      (w v : Window A) (p : Packet A) (out : List (Packet A))
      → is_rejected w p ≡ false
      → Emits (admit w p) v 0 out
      → Emits w v 1 out
  Emits-admitted w v p out fresh m =
      let longer = length-admit w p fresh in
      unfold admit in
      record {
        settled = m.settled;
        ready = m.ready;
        ordered = m.ordered;
        conserved = omega (arith, m.conserved, longer);
        more_lost = m.more_lost;
        passed = m.passed;
      }

  admit-initialized : (w : Window A) (p : Packet A) → (admit w p).initialized ≡ w.initialized
  unfolding admit
  admit-initialized w p = refl

  pub push_initialized_total :
      (w : Window A) (p : Packet A) (now : ℕ)
      → IsSettled w
      → w.initialized ≡ true
      → p.sequence_number < 65536
      → (v : Window A) × (out : List (Packet A)) × (push_initialized w p now ≡ some (v, out))
        × Emits w v 1 out
  unfolding push_initialized
  push_initialized_total w p now s ready word = elim (Bool-cases (is_rejected w p)) [
    | inl e ↦ (record w { rejected = w.rejected + 1 }, [], rw e, Emits-rejected w s ready)
    | inr e ↦
        let a = admit w p in
        let longer = length-admit w p e in
        let force = leb 4 (length a.pending) in
        let (v, out, ends, d, forced) =
          drain_total a now force (admit-IsValid w p s.valid ready word e) in
        let few : length v.pending ≤ 3 = ground (arith, forced, d.conserved, longer, s.few) in
        (
          v,
          out,
          rw (e, ends),
          Emits-admitted w v p out e (Emits-Drained a v out (admit-initialized w p ∙ ready) few d),
        )
  ]

  pub drain_idle_total :
      (w : Window A) (now : ℕ)
      → IsSettled w
      → w.initialized ≡ true
      → (v : Window A) × (out : List (Packet A)) × (drain w now false ≡ some (v, out))
        × Emits w v 0 out
  drain_idle_total w now s ready =
      let (v, out, ends, d, _) = drain_total w now false s.valid in
      (v, out, ends, Emits-Drained w v out ready (omega (arith, d.conserved, s.few)) d)
