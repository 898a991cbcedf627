-- ===== src/Talkback/History.antt =====
-- The playbacks, the pacing goroutine and the closes of a talkback sender, as a sequence of steps.
use gocalis.Common.{
  ℕ, zero, suc, Bool, true, false, Option, none, some, List, [], ◌∷◌, ◌++◌, CtxError,
}
use gocalis.Talkback.{
  Frame, Sender, Phase, waits_tick, writes_silence, ended, writes_audio, new_sender, Enqueued,
  accepted, enqueue, tick, wrote, shut, begin_playback, clear_pending,
}

abbrev pub flight : Phase → List Frame
flight (writes_audio frame) = frame ∷ []
flight _ = []

abbrev pub is_audio : Phase → Bool
is_audio (writes_audio frame) = true
is_audio _ = false

-- The sender, where its goroutine is, and since the last clear: the frames that were accepted, and
-- those that were written.
pub record System : Type 0 where
  pub sender : Sender
  pub phase : Phase
  pub offered : List Frame
  pub written : List Frame

pub data Event : Type 0 where
  enqueues : Option CtxError → Frame → Event
  ticks cancels begins clears closes : Event
  answers : Option ℕ → Event

unfoldable pub new_system : System
unfolding new_sender
new_system = record { sender = new_sender; phase = waits_tick; offered = []; written = [] }

abbrev pub after_enqueue : System → Frame → Enqueued → System
after_enqueue s frame (accepted t) = record s { sender = t; offered = s.offered ++ frame ∷ [] }
after_enqueue s frame _ = s

abbrev pub turn_to : System → Sender × Phase → System
turn_to s (t, phase) = record s { sender = t; phase = phase }

-- An event of the goroutine takes place where the goroutine is ready for it.
abbrev pub on_tick : System → Phase → System
on_tick s waits_tick = turn_to s (tick s.sender)
on_tick s _ = s

abbrev pub on_cancel : System → Phase → System
on_cancel s waits_tick = record s { sender = shut s.sender; phase = ended }
on_cancel s _ = s

abbrev pub on_answer : System → Option ℕ → Phase → System
on_answer s result writes_silence = turn_to s (wrote s.sender result)
on_answer s none (writes_audio frame) = record (turn_to s (wrote s.sender none)) {
  written = s.written ++ frame ∷ [];
}
on_answer s (some e) (writes_audio frame) = turn_to s (wrote s.sender (some e))
on_answer s result _ = s

unfoldable pub step : System → Event → System
step s (enqueues ctx frame) = after_enqueue s frame (enqueue ctx s.sender frame)
step s ticks = on_tick s s.phase
step s cancels = on_cancel s s.phase
step s (answers result) = on_answer s result s.phase
step s begins = record s { sender = begin_playback s.sender }
step s clears = record s { sender = clear_pending s.sender; offered = flight s.phase; written = [] }
step s closes = record s { sender = shut s.sender }

unfoldable pub run : System → List Event → System
run s [] = s
run s (e ∷ es) = run (step s e) es

-- Rounds of the pacing goroutine whose writes succeed.
abbrev pub paced : ℕ → List Event
paced zero = []
paced (suc n) = ticks ∷ answers none ∷ paced n

-- An open sender whose goroutine waits for its tick.
abbrev pub pacing : Sender → List Frame → List Frame → List Frame → System
pacing t queue offered written = record {
  sender = record t { queue = queue; closed = false; in_flight = false };
  phase = waits_tick;
  offered = offered;
  written = written;
}
