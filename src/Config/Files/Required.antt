-- ===== src/Config/Files/Required.antt =====
-- The files that each mode of the program needs, model by model and mode by mode.
use gocalis.Common.{ℕ, ◌≡◌, ◌≢◌, true, List, All}
use gocalis.Config.{Text, Floats, supertonic, NodeConfig, Config}
use gocalis.Config.Files.{
  Mode, webrtc, demo, asr_file, wake_file, wake_file_vad, rtc_say, rtc_record, rtc_loopback, Stat,
  regular, directory,
}

module _ (F : Floats) (join : Text → ℕ → Text) (stat : Text → Stat) where
  -- The seven files of a supertonic model.
  unfoldable pub HasSeven : Text → Type 0
  HasSeven dir =
      (stat (join dir 0) ≡ regular)
      × (stat (join dir 1) ≡ regular)
      × (stat (join dir 2) ≡ regular)
      × (stat (join dir 3) ≡ regular)
      × (stat (join dir 4) ≡ regular)
      × (stat (join dir 5) ≡ regular)
      × (stat (join dir 6) ≡ regular)

  -- The wake word detector of a node.
  pub record HasKws (n : NodeConfig F.Num) : Type 0 where
    pub encoder : stat n.kws.encoder ≡ regular
    pub decoder : stat n.kws.decoder ≡ regular
    pub joiner : stat n.kws.joiner ≡ regular
    pub tokens : stat n.kws.tokens ≡ regular
    pub keywords : stat n.kws.keywords_file ≡ regular

  -- The nodes that listen for a wake word.
  unfoldable pub EveryNode : List (NodeConfig F.Num) → Type 0
  EveryNode nodes = All (λ n. n.kws.enabled ≡ true → HasKws n) nodes

  unfoldable pub ThisNode : Text → List (NodeConfig F.Num) → Type 0
  ThisNode node_id nodes = All (λ n. n.kws.enabled ≡ true → n.node_id ≡ node_id → HasKws n) nodes

  module _ (c : Config F.Num) where
    -- The recogniser.
    pub record HasAsr : Type 0 where
      pub encoder : stat c.asr_encoder ≡ regular
      pub decoder : stat c.asr_decoder ≡ regular
      pub tokens : stat c.asr_tokens ≡ regular

    -- The synthesizer: seven files in the directory of a supertonic model, else a model, its tokens and
    -- a directory of data.
    pub record HasTts : Type 0 where
      pub seven : c.tts_engine ≡ supertonic → HasSeven c.model_dir
      pub model : c.tts_engine ≢ supertonic → stat c.tts_model ≡ regular
      pub tokens : c.tts_engine ≢ supertonic → stat c.tts_tokens ≡ regular
      pub data_dir : c.tts_engine ≢ supertonic → stat c.data_dir ≡ directory

    pub record HasSpeaker : Type 0 where
      pub speaker : stat c.speaker_model ≡ regular

    pub record HasVad : Type 0 where
      pub silero : stat c.silero_path ≡ regular

    -- What each mode needs.
    pub data IsReady (node_id : Text) : Mode → Type 0 where
      webrtc_ready :
          HasAsr → HasTts → HasSpeaker → HasVad → EveryNode c.nodes → IsReady node_id webrtc
      demo_ready : HasAsr → HasTts → HasSpeaker → IsReady node_id demo
      asr_ready : HasAsr → IsReady node_id asr_file
      wake_ready : ThisNode node_id c.nodes → IsReady node_id wake_file
      wake_vad_ready : HasVad → ThisNode node_id c.nodes → IsReady node_id wake_file_vad
      say_ready : HasTts → IsReady node_id rtc_say
      record_ready : IsReady node_id rtc_record
      loopback_ready : IsReady node_id rtc_loopback
