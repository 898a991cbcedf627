-- ===== src/Speech/Jobs.antt =====
-- internal/ai/speech.go: the jobs of the transcriber and of the synthesizer. A caller validates, pushes
-- a job on the work queue and waits; the one worker pops jobs and answers them on a channel of one
-- place. What the model's runtime answers is a parameter. Texts and recordings are seen by their
-- lengths, and a job by the number of its admission.
use gocalis.Common.{
  ℕ, ◌+◌, ◌-◌, ◌*◌, ◌==◌, ltb, ℤ, Bool, true, false, not, ◌||◌, Option, none, some, List, [], ◌∷◌,
  ◌++◌, if◌then◌else◌, length, take, CtxError, Contexts,
}
use gocalis.WorkQueue.{Queue, PushError, Popped, waits, stopped, popped, push, pop, admit}
use gocalis.WorkQueue as Work
use gocalis.Speech.{max_audio_seconds}

pub data JobError : Type 0 where
  invalid_rate audio_too_long text_too_long unreadable_file engine_closed : JobError
  context_done : CtxError → JobError
  refused : PushError → JobError
  model_failed : ℕ → JobError

-- What a caller gets: a text's or a stream's number, or an error.
pub data Outcome : Type 0 where
  done_with : ℕ → Outcome
  failed_with : JobError → Outcome

-- The checks of TranscribeSamples.
unfoldable pub validate_samples : Contexts → ℕ → ℕ → ℕ → Option JobError
validate_samples errs ctx rate count =
    if rate == 0 || ltb 192000 rate
    then some invalid_rate
    else if ltb (rate * max_audio_seconds) count
    then some audio_too_long
    else elim (errs ctx) [ some e ↦ some (context_done e) | none ↦ none ]

-- validateText
unfoldable pub validate_text : Contexts → ℕ → ℕ → Option JobError
validate_text errs ctx bytes = elim (errs ctx) [
  | some e ↦ some (context_done e)
  | none ↦ if ltb 4000 bytes then some text_too_long else none
]

-- validateAudioFile, with what os.Stat answers: whether the file is regular, and its size.
unfoldable pub validate_audio_file : Contexts → ℕ → Option (Bool × ℕ) → Option JobError
validate_audio_file errs ctx stat = elim (errs ctx) [
  | some e ↦ some (context_done e)
  | none ↦ elim stat [
    | none ↦ some unreadable_file
    | some s ↦ if not s.0 || ltb 25165824 s.1 then some unreadable_file else none
  ]
]

-- What the select behind a push finds first.
pub data Wait : Type 0 where
  context_first : CtxError → Wait
  closed_first : Wait
  answer_first : Outcome → Wait

abbrev pub await : Wait → Outcome
await (context_first e) = failed_with (context_done e)
await closed_first = failed_with engine_closed
await (answer_first o) = o

-- An engine: its queue of jobs, the number of the next job, whether Close has cancelled it, whether
-- the worker has returned, and the answers that the worker has sent.
pub record Engine : Type 0 where
  pub pq : Queue ℕ
  pub next : ℕ
  pub cancelled : Bool
  pub worker_done : Bool
  pub answers : List (ℕ × Outcome)

unfoldable pub new_engine : Engine
new_engine = record {
  pq = Work.new 32;
  next = 0;
  cancelled = false;
  worker_done = false;
  answers = [];
}

-- A caller behind its checks: the push, with the job's number or the refusal.
unfoldable pub submit : Contexts → Engine → ℕ → ℤ → Engine × Option JobError
submit errs e ctx priority =
    let r = push errs e.pq ctx e.next priority in
    (record e { pq = r.0; next = e.next + 1 }, elim r.1 [ none ↦ none | some x ↦ some (refused x) ])

-- TranscribeSamples: what the caller gets, and the engine behind its push.
unfoldable pub transcribe_samples : Contexts → Engine → ℕ → ℕ → ℕ → ℤ → Wait → Engine × Outcome
transcribe_samples errs e ctx rate count priority w =
    let r = submit errs e ctx priority in
    elim (validate_samples errs ctx rate count) [
      | some x ↦ (e, failed_with x)
      | none ↦ elim r.1 [ some x ↦ (r.0, failed_with x) | none ↦ (r.0, await w) ]
    ]

-- SynthesizeToFile and SynthesizeToStream; a cached phrase is answered without a job.
unfoldable pub synthesize : Contexts → Engine → ℕ → ℕ → Option Outcome → ℤ → Wait → Engine × Outcome
synthesize errs e ctx bytes cached priority w =
    let r = submit errs e ctx priority in
    let pushed : Engine × Outcome = elim r.1 [
      | some x ↦ (r.0, failed_with x)
      | none ↦ (r.0, await w)
    ] in
    elim (validate_text errs ctx bytes) [
      | some x ↦ (e, failed_with x)
      | none ↦
          if e.cancelled
          then (e, failed_with engine_closed)
          else elim cached [ some o ↦ (e, o) | none ↦ pushed ]
    ]

-- A round of workerLoop: the job that Pop returns is answered with its context's error, left as it is
-- since the engine has been cancelled, or answered with what the model gives.
abbrev pub after_pop : Engine → Option CtxError → Outcome → Popped ℕ → Engine
after_pop e ctx result waits = e
after_pop e ctx result stopped = record e { worker_done = true }
after_pop e (some x) result (popped job pq) = record e {
  pq = pq;
  answers = (job, failed_with (context_done x)) ∷ e.answers;
}
after_pop e none result (popped job pq) =
    if e.cancelled
    then record e { pq = pq; worker_done = true }
    else record e { pq = pq; answers = (job, result) ∷ e.answers }

unfoldable pub work : Engine → Option CtxError → Outcome → Engine
work e ctx result = if e.worker_done then e else after_pop e ctx result (pop e.pq)

-- Close in its two steps, which run on either side of a worker's round.
unfoldable pub cancel : Engine → Engine
cancel e = record e { cancelled = true }

unfoldable pub close_queue : Engine → Engine
close_queue e = record e { pq = Work.close e.pq }

pub data Event : Type 0 where
  submits : Contexts → ℕ → ℤ → Event
  works : Option CtxError → Outcome → Event
  cancels closes_queue : Event

unfoldable pub step : Engine → Event → Engine
step e (submits errs ctx priority) = (submit errs e ctx priority).0
step e (works ctx result) = work e ctx result
step e cancels = cancel e
step e closes_queue = close_queue e

unfoldable pub run : Engine → List Event → Engine
run e [] = e
run e (x ∷ xs) = run (step e x) xs

-- whisperStream.AcceptAudio: at most two minutes at 16 kHz.
abbrev pub stream_limit : ℕ
stream_limit = 1920000

module _ {A : Type 0} (limit : ℕ) where
  abbrev pub accept_audio : List A → List A → List A
  accept_audio samples more = samples ++ take (limit - length samples) more

  unfoldable pub accept_all : List A → List (List A) → List A
  accept_all samples [] = samples
  accept_all samples (more ∷ rest) = accept_all (accept_audio samples more) rest
