-- ===== src/Hub/Tests.antt =====
-- Two clients, one of which joins between two publications and then disconnects.
use gocalis.Common.{◌≡◌, refl, List, [], ◌∷◌, map}
use gocalis.Hub.{
  Client, new_hub, Event, adds, publishes, sends, writer, disconnects, writes, sees_done, run, step,
  add, publish, send, new_client, write_loop, write_round, on_client, close_client,
}
use gocalis.Hub.Closing.{IsValid, hub-IsValid}

abbrev history : List Event
history =
    adds
    ∷ publishes 7
    ∷ adds
    ∷ publishes 8
    ∷ sends 0 9
    ∷ writer 0 writes
    ∷ writer 0 writes
    ∷ disconnects 1
    ∷ writer 1 sees_done
    ∷ []

one_left : map (λ (c : Client). c.written) (run new_hub history).clients ≡ (7 ∷ 8 ∷ []) ∷ []
unfolding run step new_hub add publish send new_client write_loop write_round on_client close_client
one_left = refl

hub-IsValid_example : IsValid (run new_hub history)
hub-IsValid_example = hub-IsValid history
