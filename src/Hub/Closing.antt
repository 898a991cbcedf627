-- ===== src/Hub/Closing.antt =====
-- A client that is done stays so, and the hub keeps its invariant in every history.
use gocalis.Common.{
  ℕ, ◌≤◌, ◌≡◌, refl, arith, ◌==◌, leb, true, ◌||◌, Option, List, [], ◌∷◌, if◌then◌else◌, length,
  map, if_both, if_cases, All,
}
use gocalis.Hub.{
  Client, Hub, new_hub, close_client, send, add, Turn, sees_done, writes, fails_to_write,
  write_next, write_round, keep_some, write_loop, on_client, publish, close, Event, adds, closes,
  publishes, sends, writer, disconnects, step, run,
}
use gocalis.Hub.Delivery.{
  IsOrderly, send-IsOrderly, close_client-IsOrderly, new_client-IsOrderly, loop-IsOrderly,
  map-IsOrderly, length-map, length-loop, on_client-IsOrderly,
}

AllDone : List Client → Type 0
AllDone clients = All (λ c. c.done ≡ true) clients

-- The clients are orderly and few, and those of a closed hub are done.
pub record IsValid (h : Hub) : Type 0 where
  pub clients : All IsOrderly h.clients
  pub bounded : length h.clients ≤ 64
  pub shut : h.closed ≡ true → All (λ c. c.done ≡ true) h.clients

map-AllDone :
    (f : Client → Client)
    → ((c : Client) → c.done ≡ true → (f c).done ≡ true)
    → (clients : List Client) → AllDone clients
    → AllDone (map f clients)
unfolding AllDone
map-AllDone f keeps [] v = tt
map-AllDone f keeps (c ∷ clients) v = (keeps c v.0, map-AllDone f keeps clients v.1)

send_done : (message : ℕ) (c : Client) → c.done ≡ true → (send message c).done ≡ true
unfolding send
send_done message c h = ground (arith, h)

on_client_done :
    (id : ℕ) (f : Client → Client)
    → ((c : Client) → c.done ≡ true → (f c).done ≡ true)
    → (c : Client) → c.done ≡ true
    → (if c.id == id then f c else c).done ≡ true
on_client_done id f keeps c h = if_both (λ (d : Client). d.done ≡ true) (c.id == id) (keeps c h) h

next_done :
    (turn : Turn) (c : Client) (out : List ℕ) (clients : List Client)
    → c.done ≡ true
    → AllDone clients
    → AllDone (keep_some (write_next turn c out) clients)
unfolding AllDone
next_done sees_done c out clients h v = if_both (λ o. AllDone (keep_some o clients)) c.done v (h, v)
next_done writes c [] clients h v = (h, v)
next_done fails_to_write c [] clients h v = (h, v)
next_done writes c (message ∷ out) clients h v = (h, v)
next_done fails_to_write c (message ∷ out) clients h v = v

loop-AllDone :
    (id : ℕ) (turn : Turn) (clients : List Client)
    → AllDone clients
    → AllDone (write_loop id turn clients)
unfolding AllDone write_loop write_round
loop-AllDone id turn [] v = tt
loop-AllDone id turn (c ∷ clients) v =
    if_both AllDone (c.id == id) (next_done turn c c.out clients v.0 v.1)
      (v.0, loop-AllDone id turn clients v.1)

close-AllDone : (clients : List Client) → AllDone (map close_client clients)
unfolding AllDone close_client
close-AllDone [] = tt
close-AllDone (c ∷ clients) = (refl, close-AllDone clients)

close_client_done : (c : Client) → c.done ≡ true → (close_client c).done ≡ true
unfolding close_client
close_client_done c h = refl

-- A step that changes each client by itself.
map-IsValid :
    (h : Hub) (f : Client → Client)
    → ((c : Client) → IsOrderly c → IsOrderly (f c))
    → ((c : Client) → c.done ≡ true → (f c).done ≡ true)
    → IsValid h
    → IsValid (record h { clients = map f h.clients })
unfolding AllDone
map-IsValid h f keeps stays v = record {
  clients = map-IsOrderly f keeps h.clients v.clients;
  bounded = omega (arith, v.bounded, length-map f h.clients);
  shut = λ e. map-AllDone f stays h.clients (v.shut e);
}

add-IsValid : (h : Hub) → IsValid h → IsValid (add h).0
unfolding add
add-IsValid h v =
    if_cases (λ (r : Hub × Option ℕ). IsValid r.0) (h.closed || leb 64 (length h.clients)) (λ _. v)
      (λ room. record {
        clients = (new_client-IsOrderly h.next, v.clients);
        bounded = ground (arith, room);
        shut = λ e. absurd (ground (arith, room, e));
      })

step-IsValid : (h : Hub) (e : Event) → IsValid h → IsValid (step h e)
unfolding step publish close on_client AllDone
step-IsValid h adds v = add-IsValid h v
step-IsValid h closes v = record {
  clients = map-IsOrderly close_client close_client-IsOrderly h.clients v.clients;
  bounded = omega (arith, v.bounded, length-map close_client h.clients);
  shut = λ e. close-AllDone h.clients;
}
step-IsValid h (publishes message) v =
    map-IsValid h (send message) (send-IsOrderly message) (send_done message) v
step-IsValid h (sends id message) v =
    map-IsValid h (λ c. if c.id == id then send message c else c)
      (on_client-IsOrderly id (send message) (send-IsOrderly message))
      (on_client_done id (send message) (send_done message)) v
step-IsValid h (writer id turn) v = record {
  clients = loop-IsOrderly id turn h.clients v.clients;
  bounded = omega (arith, v.bounded, length-loop id turn h.clients);
  shut = λ e. loop-AllDone id turn h.clients (v.shut e);
}
step-IsValid h (disconnects id) v =
    map-IsValid h (λ c. if c.id == id then close_client c else c)
      (on_client-IsOrderly id close_client close_client-IsOrderly)
      (on_client_done id close_client close_client_done) v

run-IsValid : (h : Hub) (es : List Event) → IsValid h → IsValid (run h es)
unfolding run
run-IsValid h [] v = v
run-IsValid h (e ∷ es) v = run-IsValid (step h e) es (step-IsValid h e v)

-- In every history of the hub each of at most 64 clients has got a beginning of what was sent to it,
-- in order and without a gap, has the whole rest in its channel of at most 32 messages as long as it is
-- not done, and in a closed hub every client is done.
pub hub-IsValid : (es : List Event) → IsValid (run new_hub es)
unfolding new_hub
hub-IsValid es =
    run-IsValid new_hub es (record { clients = tt; bounded = omega arith; shut = λ _. tt })
