-- ===== src/Capture/Epochs.antt =====
-- Behind a ResetCapture nothing that arrived before it reaches the callback.
use gocalis.Common.{
  ℕ, zero, suc, ◌-◌, ◌≤◌, ◌≡◌, refl, ap, ◌∙◌, sym, arith, ◌==◌, ltb, Bool, ◌&&◌, Option, none, some,
  List, [], ◌∷◌, length, length-append, length-drop, drop, get_elem?, erase_idx, All, All-append,
  if_both, if_cases,
}
use gocalis.Capture.{
  Received, Receiver, new_receiver, ingest, reset_capture, look, take_packet, receive,
  deliver_epoch, emit_packet, Event, arrives, resets, looks, receives, emits, step, run,
}

-- The window has packets of the goroutine's epoch only, what was delivered was delivered in the epoch
-- of its arrival, and the channel holds at most 32 packets.
pub record IsFenced (r : Receiver) : Type 0 where
  pub windowed : All (λ p. p.epoch ≡ r.epoch) r.window
  pub fenced : All (λ d. d.from.epoch ≡ d.at) r.delivered
  pub bounded : length r.packets ≤ 32

All-erase_idx :
    (P : Received → Type 0) (xs : List Received) (i : ℕ) → All P xs → All P (erase_idx xs i)
All-erase_idx P [] i h = tt
All-erase_idx P (x ∷ xs) zero h = h.1
All-erase_idx P (x ∷ xs) (suc i) h = (h.0, All-erase_idx P xs i h.1)

All-get_elem? :
    (epoch : ℕ) (xs : List Received) (i : ℕ) (x : Received)
    → All (λ p. p.epoch ≡ epoch) xs
    → get_elem? xs i ≡ some x
    → x.epoch ≡ epoch
All-get_elem? epoch [] i x h e = absurd (ground (arith, e))
All-get_elem? epoch (y ∷ xs) zero x h e =
    ap (λ o. elim o [ some z ↦ z.epoch | none ↦ x.epoch ]) (sym e) ∙ h.0
All-get_elem? epoch (y ∷ xs) (suc i) x h e = All-get_elem? epoch xs i x h.1 e

ingest-IsFenced :
    (r : Receiver) (packet behind : ℕ) → IsFenced r → IsFenced (ingest r packet behind)
unfolding ingest
ingest-IsFenced r packet behind v =
    let received : Received = record { packet = packet; epoch = r.capture_epoch - behind } in
    if_cases IsFenced (ltb (length r.packets) 32)
      (λ room. record {
        windowed = v.windowed;
        fenced = v.fenced;
        bounded = ground (arith, room, length-append r.packets (received ∷ []));
      })
      (λ full. record {
        windowed = v.windowed;
        fenced = v.fenced;
        bounded = ground (
          arith,
          full,
          v.bounded,
          length-append (drop 1 r.packets) (received ∷ []),
          length-drop 1 r.packets,
        );
      })

look-IsFenced : (r : Receiver) → IsFenced r → IsFenced (look r)
unfolding look
look-IsFenced r v =
    if_both IsFenced (r.capture_epoch == r.epoch) v
      (record { windowed = tt; fenced = v.fenced; bounded = v.bounded })

take-IsFenced :
    (r : Receiver) (packets : List Received)
    → length packets ≤ 32
    → IsFenced r
    → IsFenced (take_packet r packets)
take-IsFenced r [] h v = v
take-IsFenced r (received ∷ packets) h v =
    if_both IsFenced (received.epoch == r.capture_epoch)
      (if_cases IsFenced (r.epoch == received.epoch)
        (λ same. record {
          windowed =
              All-append (λ p. p.epoch ≡ r.epoch) r.window (received ∷ []) v.windowed
                (ground (arith, same), tt);
          fenced = v.fenced;
          bounded = omega (arith, h);
        })
        (λ other. record { windowed = (refl, tt); fenced = v.fenced; bounded = omega (arith, h) }))
      (record { windowed = tt; fenced = v.fenced; bounded = omega (arith, h) })

deliver-IsFenced :
    (listening : Bool) (r : Receiver) (received : Received)
    → received.epoch ≡ r.epoch
    → IsFenced r
    → IsFenced (deliver_epoch listening r received)
unfolding deliver_epoch
deliver-IsFenced listening r received e v =
    if_cases IsFenced (listening && r.epoch == r.capture_epoch)
      (λ current. record {
        windowed = v.windowed;
        fenced =
            All-append (λ d. d.from.epoch ≡ d.at) r.delivered
              (record { from = received; at = r.capture_epoch } ∷ []) v.fenced
              (ground (arith, current, e), tt);
        bounded = v.bounded;
      })
      (λ _. v)

emit-IsFenced :
    (listening : Bool) (r : Receiver) (i : ℕ) (o : Option Received)
    → get_elem? r.window i ≡ o
    → IsFenced r
    → IsFenced (emit_packet listening r i o)
emit-IsFenced listening r i none e v = v
emit-IsFenced listening r i (some received) e v =
    deliver-IsFenced listening (record r { window = erase_idx r.window i }) received
      (All-get_elem? r.epoch r.window i received v.windowed e)
      (record {
        windowed = All-erase_idx _ r.window i v.windowed;
        fenced = v.fenced;
        bounded = v.bounded;
      })

step-IsFenced : (r : Receiver) (e : Event) → IsFenced r → IsFenced (step r e)
unfolding step reset_capture receive
step-IsFenced r (arrives packet behind) v = ingest-IsFenced r packet behind v
step-IsFenced r resets v = record { windowed = v.windowed; fenced = v.fenced; bounded = v.bounded }
step-IsFenced r looks v = look-IsFenced r v
step-IsFenced r receives v = take-IsFenced r r.packets v.bounded v
step-IsFenced r (emits listening i) v = emit-IsFenced listening r i (get_elem? r.window i) refl v

run-IsFenced : (r : Receiver) (es : List Event) → IsFenced r → IsFenced (run r es)
unfolding run
run-IsFenced r [] v = v
run-IsFenced r (e ∷ es) v = run-IsFenced (step r e) es (step-IsFenced r e v)

-- In every history of arrivals, resets and the goroutine's steps, each packet that reached the callback
-- did so in the epoch of its arrival, that is, before any later ResetCapture; the window holds packets
-- of one epoch, and the channel at most 32.
pub receiver-IsFenced : (es : List Event) → IsFenced (run new_receiver es)
unfolding new_receiver
receiver-IsFenced es =
    run-IsFenced new_receiver es (record { windowed = tt; fenced = tt; bounded = omega arith })
