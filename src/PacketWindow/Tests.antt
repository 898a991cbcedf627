-- ===== src/PacketWindow/Tests.antt =====
-- Runs of the packet window, and its theorems at concrete inputs.
use gocalis.Common.{
  ℕ, suc, ◌+◌, ◌%◌, ◌≤◌, ◌<◌, ◌≡◌, refl, none, some, true, List, [], ◌∷◌, arith, length, map,
  Option,
}
use gocalis.Common.Assoc.{lookup, insert, delete, IsUnique}
use gocalis.PacketWindow.{
  Packet, Window, empty, push, push_initialized, initialize, is_rejected, admit, drain, drain_loop,
  emit, skip, nearest, await, is_young,
}
use gocalis.PacketWindow.Drain.{IsValid, InOrder, Drained, drain_total}
use gocalis.PacketWindow.Stream.{
  Input, arrives, ticks, run, react, prepend, and_run, stream-InOrder, arrivals,
}

abbrev packet : ℕ → Packet ℕ
packet n = record { sequence_number = n; payload = n + 100 }

-- The numbers wrap around; 65535 comes late, and 3 is lost.
abbrev inputs : List (Input ℕ)
inputs =
    arrives (packet 0) 10
    ∷ arrives (packet 65535) 20
    ∷ arrives (packet 65535) 25
    ∷ arrives (packet 2) 30
    ∷ arrives (packet 1) 40
    ∷ arrives (packet 4) 50
    ∷ ticks 60
    ∷ ticks 40000100
    ∷ []

abbrev emitted : Option (Window ℕ × List (Packet ℕ)) → List ℕ
emitted none = []
emitted (some (w, out)) = map (λ p. p.sequence_number) out

reorders :
    emitted (run empty (arrives (packet 65534) 0 ∷ inputs)) ≡ 65534 ∷ 65535 ∷ 0 ∷ 1 ∷ 2 ∷ 4 ∷ []
unfolding run react push push_initialized initialize is_rejected admit drain drain_loop emit skip
    nearest await is_young lookup insert delete prepend and_run
reorders = refl

stream-InOrder_example :
    (v : Window ℕ) × (out : List (Packet ℕ)) × (run empty (arrives (packet 65534) 0 ∷ inputs)
      ≡ some (v, out))
    × InOrder 65534 out v.next
    × (length out + length v.pending + v.rejected ≡ suc (arrivals inputs))
    × (length v.pending ≤ 3)
    × (v.next ≡ (65534 + length out + v.lost) % 65536)
stream-InOrder_example = stream-InOrder (packet 65534) 0 inputs (omega arith) (omega arith)

-- The cursor waits for 5, and 7 and 9 are there.
abbrev gapped : Window ℕ
gapped = record empty { initialized = true; next = 5; pending = (7, packet 7) ∷ (9, packet 9) ∷ [] }

gapped-IsValid : IsValid gapped
unfolding IsUnique lookup
gapped-IsValid = record {
  unique = (refl, (refl, tt));
  ahead = omega arith;
  cursor = omega arith;
  unused = λ e. cc;
}

drain_total_example :
    (v : Window ℕ) × (out : List (Packet ℕ)) × (drain gapped 0 true ≡ some (v, out))
    × Drained gapped v out
    × (true ≡ true → 0 < length gapped.pending → 0 < length out)
drain_total_example = drain_total gapped 0 true gapped-IsValid
