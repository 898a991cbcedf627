-- ===== src/Hub.antt =====
-- internal/wshub/hub.go: the clients of the websocket hub. A message is its number, and what a write
-- to the socket answers is given with the write. A client is a state with its channel; the hub keeps
-- the clients in a list in which each one has an id of its own, in place of a set of pointers.
pub mod Delivery
pub mod Closing
mod Tests
use gocalis.Common.{
  ℕ, suc, ◌+◌, ◌==◌, ltb, leb, Bool, true, false, not, ◌&&◌, ◌||◌, Option, none, some, List, [],
  ◌∷◌, ◌++◌, if◌then◌else◌, length, map, keep_if,
}

-- `offered` and `written` are the messages that were sent to the client before it was done, and those
-- that its socket took; the code keeps no such lists.
pub record Client : Type 0 where
  pub id : ℕ
  pub out : List ℕ
  pub done : Bool
  pub offered : List ℕ
  pub written : List ℕ

pub record Hub : Type 0 where
  pub clients : List Client
  pub closed : Bool
  pub next : ℕ

abbrev pub outbound_capacity : ℕ
outbound_capacity = 32

unfoldable pub new_hub : Hub
new_hub = record { clients = []; closed = false; next = 0 }

-- Client.Close
unfoldable pub close_client : Client → Client
close_client c = record c { done = true }

-- Client.send: a client that is done gets nothing, and one whose channel is full is closed.
unfoldable pub send : ℕ → Client → Client
send message c =
    if c.done
    then c
    else if ltb (length c.out) outbound_capacity
    then record c { out = c.out ++ message ∷ []; offered = c.offered ++ message ∷ [] }
    else record (close_client c) { offered = c.offered ++ message ∷ [] }

unfoldable pub new_client : ℕ → Client
new_client id = record { id = id; out = []; done = false; offered = []; written = [] }

-- Add: a hub that is closed or full refuses.
unfoldable pub add : Hub → Hub × Option ℕ
add h =
    if h.closed || leb 64 (length h.clients)
    then (h, none)
    else (record h { clients = new_client h.next ∷ h.clients; next = h.next + 1 }, some h.next)

-- What writeLoop finds in its select, and what the socket answers.
pub data Turn : Type 0 where
  sees_done : Turn
  writes fails_to_write : Turn

-- A round of writeLoop: the client behind it, or none where the loop has ended and it is deleted.
abbrev pub write_next : Turn → Client → List ℕ → Option Client
write_next sees_done c out = if c.done then none else some c
write_next turn c [] = some c
write_next writes c (message ∷ out) =
    some (record c { out = out; written = c.written ++ message ∷ [] })
write_next fails_to_write c (message ∷ out) = none

unfoldable pub write_round : Turn → Client → Option Client
write_round turn c = write_next turn c c.out

-- The clients with one of them after its round.
abbrev pub keep_some : Option Client → List Client → List Client
keep_some none clients = clients
keep_some (some c) clients = c ∷ clients

unfoldable pub write_loop : ℕ → Turn → List Client → List Client
write_loop id turn [] = []
write_loop id turn (c ∷ clients) =
    let rest = write_loop id turn clients in
    if c.id == id then keep_some (write_round turn c) clients else c ∷ rest

unfoldable pub on_client : ℕ → (Client → Client) → List Client → List Client
on_client id f clients = map (λ c. if c.id == id then f c else c) clients

unfoldable pub publish : ℕ → Hub → Hub
publish message h = record h { clients = map (send message) h.clients }

-- Close, up to its wait for the loops.
unfoldable pub close : Hub → Hub
close h = record h { closed = true; clients = map close_client h.clients }

pub data Event : Type 0 where
  adds closes : Event
  publishes : ℕ → Event
  sends : ℕ → ℕ → Event
  writer : ℕ → Turn → Event
  disconnects : ℕ → Event

unfoldable pub step : Hub → Event → Hub
step h adds = (add h).0
step h closes = close h
step h (publishes message) = publish message h
step h (sends id message) = record h { clients = on_client id (send message) h.clients }
step h (writer id turn) = record h { clients = write_loop id turn h.clients }
step h (disconnects id) = record h { clients = on_client id close_client h.clients }

unfoldable pub run : Hub → List Event → Hub
run h [] = h
run h (e ∷ es) = run (step h e) es
