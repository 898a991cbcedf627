-- ===== src/Config/Files.antt =====
-- internal/config/config.go: ValidateModelFiles, with what os.Stat says of a path.
pub mod Required
pub mod Checked
pub mod Tts
pub mod Kws
pub mod Ready
use gocalis.Common.{
  ℕ, ◌≡◌, refl, Bool, true, false, not, ◌&&◌, ◌||◌, Option, none, some, List, [], ◌∷◌, ◌++◌,
  if◌then◌else◌, All, All-map, arith, Option-cases, inl, inr,
}
use gocalis.Config.{Text, Floats, TtsEngine, supertonic, same_text, NodeConfig, Config}

pub data Mode : Type 0 where
  webrtc demo asr_file wake_file wake_file_vad rtc_say rtc_record rtc_loopback other_mode : Mode

-- What os.Stat finds.
pub data Stat : Type 0 where
  missing regular directory special : Stat

pub data FileError : Type 0 where
  unsupported_mode : FileError
  no_file not_regular not_directory : Text → FileError

-- The models that a mode uses.
pub record Needs : Type 0 where
  pub asr : Bool
  pub tts : Bool
  pub speaker : Bool
  pub vad : Bool
  pub kws : Bool

abbrev nothing : Needs
nothing = record { asr = false; tts = false; speaker = false; vad = false; kws = false }

unfoldable pub needs : Mode → Option Needs
needs webrtc = some (record { asr = true; tts = true; speaker = true; vad = true; kws = true })
needs demo = some (record nothing { asr = true; tts = true; speaker = true })
needs asr_file = some (record nothing { asr = true })
needs wake_file = some (record nothing { kws = true })
needs wake_file_vad = some (record nothing { kws = true; vad = true })
needs rtc_say = some (record nothing { tts = true })
needs rtc_record = some nothing
needs rtc_loopback = some nothing
needs other_mode = none

abbrev pub is_webrtc : Mode → Bool
is_webrtc webrtc = true
is_webrtc _ = false

abbrev pub is_supertonic : TtsEngine → Bool
is_supertonic supertonic = true
is_supertonic _ = false

module _ (F : Floats) (join : Text → ℕ → Text) where
  abbrev pub when : Bool → List Text → List Text
  when true paths = paths
  when false paths = []

  -- The seven files of a supertonic model, by their numbers in its directory.
  abbrev pub supertonic_files : Text → List Text
  supertonic_files dir =
      join dir 0 ∷ join dir 1 ∷ join dir 2 ∷ join dir 3 ∷ join dir 4 ∷ join dir 5 ∷ join dir 6 ∷ []

  unfoldable pub node_files : Mode → Bool → Text → List (NodeConfig F.Num) → List Text
  node_files mode kws node_id [] = []
  node_files mode kws node_id (n ∷ nodes) =
      when (kws && n.kws.enabled && (is_webrtc mode || same_text n.node_id node_id))
        (n.kws.encoder ∷ n.kws.decoder ∷ n.kws.joiner ∷ n.kws.tokens ∷ n.kws.keywords_file ∷ [])
      ++ node_files mode kws node_id nodes

  unfoldable pub files : Config F.Num → Mode → Text → Needs → List Text
  files c mode node_id m =
      when m.asr (c.asr_encoder ∷ c.asr_decoder ∷ c.asr_tokens ∷ [])
      ++ when m.speaker (c.speaker_model ∷ [])
      ++ when m.vad (c.silero_path ∷ [])
      ++ when m.tts (
          if is_supertonic c.tts_engine
          then supertonic_files c.model_dir
          else (c.tts_model ∷ c.tts_tokens ∷ []))
      ++ node_files mode m.kws node_id c.nodes

  unfoldable pub dirs : Config F.Num → Needs → List Text
  dirs c m = when (m.tts && not (is_supertonic c.tts_engine)) (c.data_dir ∷ [])

  module _ (stat : Text → Stat) where
    abbrev pub file_error : Text → Stat → Option FileError
    file_error path missing = some (no_file path)
    file_error path regular = none
    file_error path _ = some (not_regular path)

    abbrev pub dir_error : Text → Stat → Option FileError
    dir_error path missing = some (no_file path)
    dir_error path directory = none
    dir_error path _ = some (not_directory path)

    unfoldable pub check_paths : (Text → Stat → Option FileError) → List Text → Option FileError
    check_paths judge [] = none
    check_paths judge (path ∷ paths) =
        let rest = check_paths judge paths in
        elim (judge path (stat path)) [ some e ↦ some e | none ↦ rest ]

    abbrev pub files_then_dirs : Option FileError → Option FileError → Option FileError
    files_then_dirs (some e) rest = some e
    files_then_dirs none rest = rest

    unfoldable pub validate_model_files : Config F.Num → Mode → Text → Option FileError
    validate_model_files c mode node_id = elim (needs mode) [
      | none ↦ some unsupported_mode
      | some m ↦
          files_then_dirs (check_paths file_error (files c mode node_id m))
            (check_paths dir_error (dirs c m))
    ]
