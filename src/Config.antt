-- ===== src/Config.antt =====
-- internal/config/config.go: the defaults and the checks of a configuration, the getters of a node and
-- the model files that a mode needs. Texts are lists of bytes; floating point numbers are a parameter
-- with their comparisons, and so is what TrimSpace, url.Parse and os.Stat answer.
pub mod Checks
pub mod Accepted
pub mod Sound
pub mod Files
mod Tests
use gocalis.Common.{
  ℕ, suc, ◌+◌, ◌==◌, ltb, leb, ◌≡◌, Bool, true, false, not, ◌&&◌, ◌||◌, Option, none, some, List,
  [], ◌∷◌, ◌++◌, map, if◌then◌else◌, length, ℤ, pos, negsuc,
}

abbrev pub Text : Type 0
Text = List ℕ

-- What the code uses of float32 and float64. A literal is given in thousandths.
pub record Floats : Type 1 where
  pub Num : Type 0
  pub is_nan : Num → Bool
  pub is_inf : Num → Bool
  pub le : Num → Num → Bool
  pub is_zero : Num → Bool
  pub literal : ℤ → Num
  -- a default is not zero
  pub nonzero : (n : ℕ) → is_zero (literal (pos (suc n))) ≡ false

pub data AsrEngine : Type 0 where
  whisper moonshine other_asr : AsrEngine

pub data TtsEngine : Type 0 where
  vits supertonic other_tts : TtsEngine

pub data NodeType : Type 0 where
  local rtc_stream other_type : NodeType

-- What url.Parse finds.
pub record Url : Type 0 where
  pub scheme : Text
  pub host : Text
  pub raw_query : Text
  pub fragment : Text

pub data ConfigError : Type 0 where
  bad_threads bad_asr_engine bad_tts_engine missing_path bad_vad_threshold bad_vad_silence
        bad_speaker bad_tts missing_cache_dir long_phrase bad_qos bad_broker :
      ConfigError
  bad_node_id bad_node_type bad_sample_rate bad_gain bad_api_url missing_stream bad_output_gain
        missing_kws_path bad_kws_threshold too_many_kws_threads bad_ask_duration long_response :
      Text → ConfigError

abbrev pub same_text : Text → Text → Bool
same_text [] [] = true
same_text (x ∷ xs) (y ∷ ys) = x == y && same_text xs ys
same_text xs ys = false

abbrev pub is_empty : Text → Bool
is_empty [] = true
is_empty (x ∷ xs) = false

abbrev pub any : {A : Type 0} → (A → Bool) → List A → Bool
any p [] = false
any p (x ∷ xs) = p x || any p xs

-- "all"
abbrev pub all_nodes : Text
all_nodes = 97 ∷ 108 ∷ 108 ∷ []

module _ (Num : Type 0) where
  pub record KwsConfig : Type 0 where
    pub enabled : Bool
    pub encoder : Text
    pub decoder : Text
    pub joiner : Text
    pub tokens : Text
    pub keywords_file : Text
    pub threshold : Num
    pub num_threads : ℤ
    pub auto_ask_timeout : Num
    pub post_speech_silence : Num
    pub auto_ask_capture_delay : Num
    pub wake_responses : List Text

  pub record NodeConfig : Type 0 where
    pub node_id : Text
    pub type : NodeType
    pub sample_rate : ℤ
    pub gain : Num
    pub api_url : Text
    pub stream_name : Text
    pub output_gain_db : Num
    pub kws : KwsConfig

  pub record Config : Type 0 where
    pub global_num_threads : ℤ
    pub asr_engine : AsrEngine
    pub language : Text
    pub asr_encoder : Text
    pub asr_decoder : Text
    pub asr_tokens : Text
    pub silero_path : Text
    pub vad_threshold : Num
    pub min_silence_ms : ℤ
    pub speaker_model : Text
    pub confidence : Num
    pub min_audio : Num
    pub challenge_prompts : List Text
    pub tts_engine : TtsEngine
    pub model_dir : Text
    pub tts_model : Text
    pub tts_tokens : Text
    pub data_dir : Text
    pub sid : ℤ
    pub num_steps : ℤ
    pub speed : Num
    pub cache_enabled : Bool
    pub cache_dir : Text
    pub pre_generate : List Text
    pub qos : ℤ
    pub mqtt_enabled : Bool
    pub broker : Text
    pub nodes : List NodeConfig
