-- ===== src/Speech/Tests.antt =====
-- A stream at 4 Hz, so that its buffer has 8 places, and an engine with two callers.
use gocalis.Common.{ℕ, ◌+◌, ◌≡◌, ◌≤◌, refl, true, none, some, List, [], ◌∷◌, arith, canceled, pos}
use gocalis.Speech.{
  SpeechStream, Event, pushes, resumes, consumes, finishes, new_pipe, run, step, consume,
  read_pcm16, begin_push, admit, new_stream, go_on, push_round,
}
use gocalis.WorkQueue as Work
use gocalis.Speech.Buffer.{pipe_keeps_order, IsValid}
use gocalis.Speech.Finished.{as_source, finished-Yields}
use gocalis.AudioSource.Concat.{Yields}
use gocalis.Speech.Jobs.{
  Outcome, done_with, failed_with, context_done, new_engine, submits, works, cancels, closes_queue,
  accept_all,
}
use gocalis.Speech.Jobs as Jobs
use gocalis.Speech.Answers.{answered, answers_once}

abbrev pushed : List ℕ
pushed = 1 ∷ 2 ∷ 3 ∷ 4 ∷ 5 ∷ 6 ∷ 7 ∷ 8 ∷ 9 ∷ 10 ∷ []

-- The push of ten samples waits for room until the reader has taken three.
abbrev history : List Event
history =
    pushes pushed
    ∷ resumes none
    ∷ resumes none
    ∷ consumes none 3
    ∷ resumes none
    ∷ finishes none
    ∷ []

abbrev increment : ℕ → ℕ
increment x = x + 1

read_three : (run increment (new_pipe 4) history).delivered ≡ 2 ∷ 3 ∷ 4 ∷ []
unfolding run step consume read_pcm16 begin_push new_pipe admit new_stream go_on push_round
read_three = refl

pipe_keeps_order_example : IsValid increment (run increment (new_pipe 4) history)
pipe_keeps_order_example = pipe_keeps_order increment 4 history

abbrev drained : SpeechStream
drained = record { sample_rate = 4; buf = 5 ∷ 6 ∷ 7 ∷ []; done = true; err = none; total = 3 }

finished-Yields_example : Yields (as_source 2) drained (5 ∷ 6 ∷ 7 ∷ [])
finished-Yields_example = finished-Yields 2 drained (omega arith) refl refl

-- Two callers, the second cancelled before its turn.
abbrev calls : List Jobs.Event
calls =
    submits (λ _. none) 0 (pos 1)
    ∷ submits (λ _. none) 1 (pos 2)
    ∷ works (some canceled) (done_with 7)
    ∷ works none (done_with 8)
    ∷ cancels
    ∷ closes_queue
    ∷ works none (done_with 9)
    ∷ []

both_answered :
    (Jobs.run new_engine calls).answers
    ≡ (0, done_with 8) ∷ (1, failed_with (context_done canceled)) ∷ []
unfolding Jobs.run Jobs.step Jobs.work Jobs.close_queue Jobs.cancel Jobs.submit new_engine Work.pop
    Work.push Work.new Work.take_at Work.best_index Work.close
both_answered = refl

answers_once_example : answered 0 (Jobs.run new_engine calls).answers ≤ 1
answers_once_example = answers_once 0 calls
