-- ===== src/Lib.antt =====
-- gocalis: a proxy that runs voice turns (speak, ask, barge-in) on audio nodes.
--
-- The program's parts. A command arrives over HTTP, MQTT or a websocket (internal/protocol); the brain
-- (internal/brain) gives it a turn on a node and plays or listens; what is heard goes through the
-- session registry (internal/session) into the session of the turn; synthesis and recognition are
-- calls of models that a bounded queue admits (internal/workqueue); goroutines belong to a task group
-- (internal/taskgroup); audio comes and goes as RTP packets (internal/webrtc) and files and codecs
-- (internal/audio).
--
-- Which file models which part:
--   WorkQueue     internal/workqueue/queue.go: Push, Pop, Close; History runs them in any order, Refine
--                 compares them with a queue sorted by priority and arrival.
--   TaskGroup     internal/taskgroup/group.go: Start, the finish function, Go, Close.
--   Session       internal/session/session.go: the state of a turn, barge-in, capture and pre-roll.
--                 Session.Registry is internal/session/registry.go, over a heap of sessions.
--   PacketWindow  internal/webrtc/jitter.go: push and drain, over 16-bit sequence numbers.
--   NodeQueue     internal/brain/queue.go: acquire, release, close.
--   Ask           internal/ask/ask.go: Validate, Run as the list of its effects over the answers of the
--                 rest of the program (Ask.Flow), waitForEndpoint (Ask.Admission).
--   Node          internal/node/node.go: the states of a node, SetState, the dispatcher and Close. A
--                 history is these in any order; Node.Told reads off the calls of a callback.
--   Protocol      internal/protocol/command.go: Validate, Execute and the handlers.
--   Brain         internal/brain/brain.go: Speak, PlaySamples and the broadcasts, as lists of effects.
--   AudioSource   internal/audionode/audionode.go, internal/ask/prompt.go and PlayStream of
--                 internal/audionode/stub.go: PCM16 read in chunks.
--   Wav           internal/audio/wav.go: the encoder and the decoder.
--   MuLaw         internal/audio/mulaw.go: the G.711 codec of a sample.
--   Resample      internal/audio/stream_resample.go: the resampler that keeps its phase across chunks.
--   Speech        internal/ai/speech.go: the stream between the synthesis and the playback; Speech.Jobs is the
--                 queue, the worker and the checks of the transcriber and of the synthesizer.
--   Playback      internal/webrtc/client.go and internal/webrtc/talkback.go: cutting a source into frames,
--                 over the receiving connection (Playback.Client) and over the talkback
--                 (Playback.Talkback, which uses Resample).
--   Talkback      internal/webrtc/talkback.go: the queue of frames and the goroutine that paces them.
--   Capture       internal/webrtc/client.go: the packets of the remote track and ResetCapture.
--   Config        internal/config/config.go: the defaults and the checks (Config.Checks), the getters, and
--                 the model files of a mode (Config.Files; what each mode needs is Config.Files.Required).
--   Hub           internal/wshub/hub.go: the clients of the websocket hub and their write loops.
--   HttpSecurity  internal/httpsec/httpsec.go: origins, tokens and the verdict on a body.
--   Recorder      internal/diagnostics/recording.go: the window of the newest microphone samples.
--   Runtime       internal/runtime/runtime.go: the callbacks for audio and for wake words of a node.
--   Common        what they share: the integers of the source, lists, contexts, association lists.
--
-- How the state corresponds. A struct is a record with the source's fields, a map a list of keys and
-- values with unique keys, and a method a function from a state to a state and a result. A mutex makes
-- a critical section one step; an interleaving of goroutines is a list of such steps, and the
-- invariants hold after every list. Where a goroutine waits, the wait is an outcome: Pop that would
-- block, a channel that is full, a turn that parks. A context is what its Err returns.
--
-- Bounds. A w-bit integer wraps around by `% 2 ^ w`; int and the counters of uint64 are taken as
-- unbounded, since no history reaches 2 ^ 63 of them. The loop of drain runs on fuel 2 * n + 2 for n
-- packets: a round emits a packet or moves the cursor to one that the next round emits. The walk over the chunks of
-- a file runs on the file's length as fuel: a chunk has at least eight bytes. The emit loop of the
-- resampler runs on the number of samples that are due, and the loop over the frames of a playback on
-- the number of samples: a round uses up one at least. All four are shown never to run out.
--
-- Not modelled: floating point arithmetic, so the gain, the conversions of whole clips and the rendering
-- of the chime; where the code only interpolates or compares such numbers, the arithmetic is a parameter.
-- The calls of the speech models, of the sound card, of the WebRTC, HTTP, MQTT and websocket stacks,
-- whose answers are parameters or inputs; the decoding of the remote track; the wiring of the main program; and
-- the test tools.
pub mod Common
pub mod WorkQueue
pub mod TaskGroup
pub mod Session
pub mod PacketWindow
pub mod NodeQueue
pub mod Wav
pub mod MuLaw
pub mod Ask
pub mod Node
pub mod AudioSource
pub mod Brain
pub mod Protocol
pub mod Playback
pub mod Talkback
pub mod Config
pub mod Hub
pub mod Recorder
pub mod HttpSecurity
pub mod Runtime
pub mod Capture
pub mod Resample
pub mod Speech
