-- ===== src/PacketWindow/Stream.antt =====
-- The stream of packets that a window emits over a history of pushes and timer ticks.
use gocalis.Common.{
  ℕ, suc, ◌+◌, ◌%◌, ◌≤◌, ◌<◌, ◌≡◌, refl, sym, subst, true, false, Option, none, some, List, [], ◌∷◌,
  ◌++◌, All, arith, length, length-append,
}
use gocalis.Common.Assoc.{IsUnique}
use gocalis.PacketWindow.{Packet, Window, empty, drain, initialize, push_initialized, push}
use gocalis.PacketWindow.Drain.{InOrder}
use gocalis.PacketWindow.Push.{IsSettled, Emits, push_initialized_total, drain_idle_total}

pub data Input (A : Type 0) : Type 0 where
  arrives : Packet A → ℕ → Input A
  ticks : ℕ → Input A

module _ {A : Type 0} where
  unfoldable pub react : Window A → Input A → Option (Window A × List (Packet A))
  react w (arrives p now) = push w p now
  react w (ticks now) = drain w now false

  unfoldable pub prepend :
      List (Packet A) → Option (Window A × List (Packet A)) → Option (Window A × List (Packet A))
  prepend out none = none
  prepend out (some (w, more)) = some (w, out ++ more)

  unfoldable pub and_run :
      Option (Window A × List (Packet A))
      → (Window A → Option (Window A × List (Packet A)))
      → Option (Window A × List (Packet A))
  unfolding prepend
  and_run none k = none
  and_run (some (w, out)) k = prepend out (k w)

  -- All that a window emits over a history.
  unfoldable pub run : Window A → List (Input A) → Option (Window A × List (Packet A))
  unfolding react and_run
  run w [] = some (w, [])
  run w (i ∷ is) = and_run (react w i) (λ v. run v is)

  unfoldable pub arrivals : List (Input A) → ℕ
  arrivals [] = 0
  arrivals (arrives p now ∷ is) = suc (arrivals is)
  arrivals (ticks now ∷ is) = arrivals is

  -- The sequence number of a packet is a 16-bit word.
  abbrev pub IsWord : Input A → Type 0
  IsWord (arrives p now) = p.sequence_number < 65536
  IsWord (ticks now) = Unit {0}

  InOrder-append :
      (a b c : ℕ) (xs ys : List (Packet A))
      → InOrder a xs b
      → InOrder b ys c
      → InOrder a (xs ++ ys) c
  unfolding InOrder
  InOrder-append a b c [] ys h k = subst (λ (n : ℕ). InOrder n ys c) (sym h) k
  InOrder-append a b c (x ∷ xs) ys h k =
      (h.0, InOrder-append ((x.sequence_number + 1) % 65536) b c xs ys h.1 k)

  Emits-trans :
      (w v u : Window A) (k m n : ℕ) (xs ys : List (Packet A))
      → k ≡ m + n
      → Emits w v m xs
      → Emits v u n ys
      → Emits w u k (xs ++ ys)
  Emits-trans w v u k m n xs ys sum e f =
      let size = length-append xs ys in
      record {
        settled = f.settled;
        ready = f.ready;
        ordered = InOrder-append w.next v.next u.next xs ys e.ordered f.ordered;
        conserved = omega (arith, e.conserved, f.conserved, size);
        more_lost = omega (arith, e.more_lost, f.more_lost);
        passed = omega (arith, e.passed, f.passed, e.more_lost, f.more_lost, size);
      }

  Emits-none : (w : Window A) → IsSettled w → w.initialized ≡ true → Emits w w 0 []
  unfolding InOrder
  Emits-none w s ready = record {
    settled = s;
    ready = ready;
    ordered = refl;
    conserved = omega arith;
    more_lost = omega arith;
    passed = omega (arith, s.valid.cursor);
  }

  -- A call that comes back.
  abbrev Comes : Window A → ℕ → Option (Window A × List (Packet A)) → Type 0
  Comes w n r = (v : Window A) × (out : List (Packet A)) × (r ≡ some (v, out)) × Emits w v n out

  initialize-ready : (w : Window A) (p : Packet A) → w.initialized ≡ true → initialize w p ≡ w
  unfolding initialize
  initialize-ready w p h = ground arith

  react_arrives :
      (w : Window A) (p : Packet A) (now : ℕ)
      → IsSettled w
      → w.initialized ≡ true
      → p.sequence_number < 65536
      → Comes w 1 (push w p now)
  unfolding push
  react_arrives w p now s ready word =
      subst (λ (v : Window A). Comes w 1 (push_initialized v p now))
        (sym (initialize-ready w p ready)) (push_initialized_total w p now s ready word)

  run_total :
      (w : Window A) (is : List (Input A))
      → IsSettled w
      → w.initialized ≡ true
      → All IsWord is
      → Comes w (arrivals is) (run w is)
  unfolding run arrivals
  run_total w [] s ready h = (w, [], refl, Emits-none w s ready)
  run_total w (arrives p now ∷ is) s ready h =
      let (v, out, e, m) = react_arrives w p now s ready h.0 in
      let (u, more, k, n) = run_total v is m.settled m.ready h.1 in
      (
        u,
        out ++ more,
        rw (e, k),
        Emits-trans w v u (suc (arrivals is)) 1 (arrivals is) out more (omega arith) m n,
      )
  run_total w (ticks now ∷ is) s ready h =
      let (v, out, e, m) = drain_idle_total w now s ready in
      let (u, more, k, n) = run_total v is m.settled m.ready h.1 in
      (
        u,
        out ++ more,
        rw (e, k),
        Emits-trans w v u (arrivals is) 0 (arrivals is) out more (omega arith) m n,
      )

  -- The window that the first packet makes.
  abbrev started : Packet A → Window A
  started p = record empty { initialized = true; next = p.sequence_number }

  started-IsSettled : (p : Packet A) → p.sequence_number < 65536 → IsSettled (started p)
  started-IsSettled p word = record {
    valid = record { unique = unfold IsUnique in tt; ahead = tt; cursor = word; unused = λ e. cc };
    few = omega arith;
  }

  first_arrives :
      (p : Packet A) (now : ℕ) → p.sequence_number < 65536 → Comes (started p) 1 (push empty p now)
  unfolding push initialize
  first_arrives p now word =
      push_initialized_total (started p) p now (started-IsSettled p word) refl word

  -- Whatever packets and ticks follow the first packet, every call comes back, and the stream emitted
  -- is in serial order from the first packet's number. Each packet that arrived is emitted, pending or
  -- rejected; at most three are pending; and each number between the first and the cursor is that of
  -- an emitted packet or counted as lost.
  pub stream-InOrder :
      (p : Packet A) (now : ℕ) (is : List (Input A))
      → p.sequence_number < 65536
      → All IsWord is
      → (v : Window A) × (out : List (Packet A)) × (run empty (arrives p now ∷ is) ≡ some (v, out))
        × InOrder p.sequence_number out v.next
        × (length out + length v.pending + v.rejected ≡ suc (arrivals is))
        × (length v.pending ≤ 3)
        × (v.next ≡ (p.sequence_number + length out + v.lost) % 65536)
  unfolding run
  stream-InOrder p now is word h =
      let (v, out, e, m) = first_arrives p now word in
      let (u, more, k, n) = run_total v is m.settled m.ready h in
      let t =
        Emits-trans (started p) v u (suc (arrivals is)) 1 (arrivals is) out more (omega arith) m
          n in
      (
        u,
        out ++ more,
        rw (e, k),
        t.ordered,
        omega (arith, t.conserved),
        t.settled.few,
        omega (arith, t.passed),
      )
