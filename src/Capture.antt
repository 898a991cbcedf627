-- ===== src/Capture.antt =====
-- internal/webrtc/client.go: the packets of the remote track on their way to the callback, and
-- ResetCapture, as steps of the reader, of the goroutine that processes the packets and of the caller
-- that resets. A packet is its number and the epoch of its arrival. The window that reorders packets,
-- which PacketWindow models, is a list of which any packet may come out next, so that each of its
-- behaviours is among the histories; what is decoded from a packet is the packet here.
-- Capture.Gaps is the silence that stands for missing packets.
pub mod Epochs
pub mod Gaps
mod Tests
use gocalis.Common.{
  ℕ, suc, ◌+◌, ◌-◌, ◌==◌, ltb, leb, Bool, true, false, not, ◌&&◌, ◌||◌, Option, none, some, List,
  [], ◌∷◌, ◌++◌, if◌then◌else◌, length, drop, get_elem?, erase_idx,
}

pub record Received : Type 0 where
  pub packet : ℕ
  pub epoch : ℕ

-- What the callback got: the packet, and the epoch at which it got it.
pub record Delivery : Type 0 where
  pub from : Received
  pub at : ℕ

pub record Receiver : Type 0 where
  pub capture_epoch : ℕ
  pub packets : List Received
  pub overflow : ℕ
  -- the goroutine's own epoch and its window
  pub epoch : ℕ
  pub window : List Received
  pub delivered : List Delivery

unfoldable pub new_receiver : Receiver
new_receiver = record {
  capture_epoch = 0;
  packets = [];
  overflow = 0;
  epoch = 0;
  window = [];
  delivered = [];
}

-- The channel of 32 packets: where it is full, the oldest one makes room. The epoch is read in front of
-- the send, so the packet may be behind by some resets.
unfoldable pub ingest : Receiver → ℕ → ℕ → Receiver
ingest r packet behind =
    let received : Received = record { packet = packet; epoch = r.capture_epoch - behind } in
    if ltb (length r.packets) 32
    then record r { packets = r.packets ++ received ∷ [] }
    else record r { packets = drop 1 r.packets ++ received ∷ []; overflow = r.overflow + 1 }

unfoldable pub reset_capture : Receiver → Receiver
reset_capture r = record r { capture_epoch = r.capture_epoch + 1 }

-- The head of the goroutine's loop, and its tick.
unfoldable pub look : Receiver → Receiver
look r = if r.capture_epoch == r.epoch then r else record r { epoch = r.capture_epoch; window = [] }

abbrev pub accept : Receiver → Received → Receiver
accept r received =
    if r.epoch == received.epoch
    then record r { window = r.window ++ received ∷ [] }
    else record r { epoch = received.epoch; window = received ∷ [] }

abbrev pub take_packet : Receiver → List Received → Receiver
take_packet r [] = r
take_packet r (received ∷ packets) =
    let s = record r { packets = packets } in
    if received.epoch == r.capture_epoch then accept s received else record s { window = [] }

unfoldable pub receive : Receiver → Receiver
receive r = take_packet r r.packets

-- deliverEpoch, with whether there is a callback and the client is not closed.
unfoldable pub deliver_epoch : Bool → Receiver → Received → Receiver
deliver_epoch listening r received =
    if listening && r.epoch == r.capture_epoch
    then record r {
      delivered = r.delivered ++ record { from = received; at = r.capture_epoch } ∷ [];
    }
    else r

abbrev pub emit_packet : Bool → Receiver → ℕ → Option Received → Receiver
emit_packet listening r i none = r
emit_packet listening r i (some received) =
    deliver_epoch listening (record r { window = erase_idx r.window i }) received

pub data Event : Type 0 where
  arrives : ℕ → ℕ → Event
  resets looks receives : Event
  emits : Bool → ℕ → Event

unfoldable pub step : Receiver → Event → Receiver
step r (arrives packet behind) = ingest r packet behind
step r resets = reset_capture r
step r looks = look r
step r receives = receive r
step r (emits listening i) = emit_packet listening r i (get_elem? r.window i)

unfoldable pub run : Receiver → List Event → Receiver
run r [] = r
run r (e ∷ es) = run (step r e) es
