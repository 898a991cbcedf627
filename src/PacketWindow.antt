-- ===== src/PacketWindow.antt =====
-- internal/webrtc/jitter.go: the window that puts RTP packets back in order. Sequence numbers are
-- 16-bit words, so the arithmetic on them is modulo 2 ^ 16; the three counters are 64-bit words that
-- no run comes near to filling, and stand as plain numbers. A time is a number of nanoseconds, the
-- zero time is `none`. The loop over the pending map goes in the order of the list; only a minimum is
-- taken there. The first push makes the map; before it the map is empty.
pub mod Serial
pub mod Drain
pub mod Push
pub mod Stream
mod Tests
use gocalis.Common.{
  ℕ, zero, suc, ◌+◌, ◌-◌, ◌*◌, ◌%◌, ◌^◌, ◌==◌, ltb, leb, Bool, true, false, not, ◌&&◌, ◌||◌, Option,
  none, some, List, [], ◌∷◌, if◌then◌else◌, length,
}
use gocalis.Common.Assoc.{lookup, insert, delete}

pub record Packet (A : Type 0) : Type 0 where
  pub sequence_number : ℕ
  pub payload : A

pub record Window (A : Type 0) : Type 0 where
  pub initialized : Bool
  pub next : ℕ
  pub pending : List (ℕ × Packet A)
  pub waiting : Option ℕ
  pub lost : ℕ
  pub reordered : ℕ
  pub rejected : ℕ

-- `a - b` on uint16.
abbrev pub sub16 : ℕ → ℕ → ℕ
sub16 a b = (a + 65536 - b) % 65536

-- 40*time.Millisecond
abbrev pub patience : ℕ
patience = 40 * 1000000

module _ {A : Type 0} where
  abbrev pub empty : Window A
  empty = record {
    initialized = false;
    next = 0;
    pending = [];
    waiting = none;
    lost = 0;
    reordered = 0;
    rejected = 0;
  }

  -- The distance from the cursor to the nearest pending packet.
  pub nearest : ℕ → List (ℕ × Packet A) → ℕ → ℕ
  nearest next [] distance = distance
  nearest next ((sequence, p) ∷ m) distance =
      let d = sub16 sequence next in nearest next m (if ltb d distance then d else distance)

  -- The cursor's own packet leaves the window.
  pub emit : Window A → Window A
  emit w = record w {
    pending = delete w.next w.pending;
    next = (w.next + 1) % 65536;
    waiting = none;
  }

  -- `if w.waiting.IsZero() { w.waiting = now }`
  pub await : Window A → ℕ → Window A
  await w now = elim w.waiting [ none ↦ record w { waiting = some now } | some _ ↦ w ]

  -- Whether the gap is younger than the patience; after `await` the time is there.
  pub is_young : Window A → ℕ → Bool
  is_young w now = elim w.waiting [ none ↦ true | some since ↦ ltb now (since + patience) ]

  -- The cursor goes to the nearest pending packet, and the packets between count as lost.
  pub skip : Window A → Window A
  skip w =
      let distance = nearest w.next w.pending 65535 in
      record w { lost = w.lost + distance; next = (w.next + distance) % 65536; waiting = none }

  abbrev pub and_out :
      Packet A → Option (Window A × List (Packet A)) → Option (Window A × List (Packet A))
  and_out p none = none
  and_out p (some (w, out)) = some (w, p ∷ out)

  -- The loop of drain, on fuel: `none` means that it ran out. The packets that a round emits stand in
  -- front of those of the later rounds.
  pub drain_loop : ℕ → Window A → ℕ → Bool → Option (Window A × List (Packet A))
  drain_loop zero w now force = none
  drain_loop (suc fuel) w now force =
      let found = λ (p : Packet A). and_out p (drain_loop fuel (emit w) now force) in
      let skipped = drain_loop fuel (skip (await w now)) now false in
      if length w.pending == 0 then some (w, []) else elim (lookup w.next w.pending) [
        | some p ↦ found p
        | none ↦ if not force && is_young (await w now) now then some (await w now, []) else skipped
      ]

  -- Each packet takes two rounds at most, one to skip to it and one to emit it, and the last round
  -- finds the window empty.
  pub drain : Window A → ℕ → Bool → Option (Window A × List (Packet A))
  drain w now force = drain_loop (2 * length w.pending + 2) w now force

  -- What push does before its tests.
  pub initialize : Window A → Packet A → Window A
  initialize w p =
      if w.initialized
      then w
      else record w { initialized = true; next = p.sequence_number; pending = [] }

  -- Whether the packet lies behind the cursor, by the sign of the 16-bit difference, or is there.
  pub is_rejected : Window A → Packet A → Bool
  is_rejected w p =
      leb 32768 (sub16 p.sequence_number w.next)
      || elim (lookup p.sequence_number w.pending) [ none ↦ false | some _ ↦ true ]

  pub admit : Window A → Packet A → Window A
  admit w p = record w {
    reordered = if sub16 p.sequence_number w.next == 0 then w.reordered else w.reordered + 1;
    pending = insert p.sequence_number p w.pending;
  }

  pub push_initialized : Window A → Packet A → ℕ → Option (Window A × List (Packet A))
  push_initialized w p now =
      if is_rejected w p
      then some (record w { rejected = w.rejected + 1 }, [])
      else let v = admit w p in drain v now (leb 4 (length v.pending))

  pub push : Window A → Packet A → ℕ → Option (Window A × List (Packet A))
  push w p now = push_initialized (initialize w p) p now
