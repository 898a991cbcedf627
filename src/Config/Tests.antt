-- ===== src/Config/Tests.antt =====
-- A configuration with one local node, over numbers that are whole thousandths.
use gocalis.Common.{
  ◌↔◌, ℕ, suc, ◌≡◌, refl, false, Option, none, [], ◌∷◌, ℤ, pos, negsuc, leb_ℤ, arith,
}
use gocalis.Config.{Text, Floats, whisper, vits, local, Url, KwsConfig, NodeConfig, Config}
use gocalis.Config.Checks.{
  is_zero, accepted, normalize, fill, fill_node, fill_kws, checks, first_error, nodes_checks,
  node_checks, model_paths, valid_number,
}
use gocalis.Config.Accepted.{normalize-normalize}
use gocalis.Config.Sound.{IsSound, normalize-IsSound}
use gocalis.Config.Files.Required.{IsReady}
use gocalis.Config.Files.Ready.{validate_model_files-IsReady}
use gocalis.Config.Files.{
  Stat, regular, asr_file, validate_model_files, needs, files, dirs, check_paths, node_files,
}

never_zero : (n : ℕ) → is_zero (pos (suc n)) ≡ false
never_zero n = ground arith

abbrev thousandths : Floats
thousandths = record {
  Num = ℤ;
  is_nan = λ x. false;
  is_inf = λ x. false;
  le = leb_ℤ;
  is_zero = is_zero;
  literal = λ n. n;
  nonzero = never_zero;
}

abbrev path : Text
path = 47 ∷ 109 ∷ []

abbrev no_wake : KwsConfig ℤ
no_wake = record {
  enabled = false;
  encoder = [];
  decoder = [];
  joiner = [];
  tokens = [];
  keywords_file = [];
  threshold = pos 0;
  num_threads = pos 2;
  auto_ask_timeout = pos 0;
  post_speech_silence = pos 0;
  auto_ask_capture_delay = negsuc 999;
  wake_responses = [];
}

abbrev kitchen : NodeConfig ℤ
kitchen = record {
  node_id = 107 ∷ [];
  type = local;
  sample_rate = pos 0;
  gain = pos 0;
  api_url = [];
  stream_name = [];
  output_gain_db = pos 0;
  kws = no_wake;
}

abbrev given : Config ℤ
given = record {
  global_num_threads = pos 0;
  asr_engine = whisper;
  language = [];
  asr_encoder = path;
  asr_decoder = path;
  asr_tokens = path;
  silero_path = path;
  vad_threshold = pos 0;
  min_silence_ms = pos 0;
  speaker_model = path;
  confidence = pos 600;
  min_audio = pos 0;
  challenge_prompts = [];
  tts_engine = vits;
  model_dir = [];
  tts_model = path;
  tts_tokens = path;
  data_dir = path;
  sid = pos 0;
  num_steps = pos 0;
  speed = pos 0;
  cache_enabled = false;
  cache_dir = [];
  pre_generate = [];
  qos = pos 1;
  mqtt_enabled = false;
  broker = [];
  nodes = kitchen ∷ [];
}

abbrev trim : Text → Text
trim text = text

abbrev no_urls : Text → Option Url
no_urls text = none

abbrev filled : Config ℤ
filled = record given {
  global_num_threads = pos 4;
  language = 101 ∷ 115 ∷ [];
  vad_threshold = pos 500;
  min_silence_ms = pos 700;
  speed = pos 1000;
  nodes = record kitchen { sample_rate = pos 16000; gain = pos 1000 } ∷ [];
}

given_accepted : normalize thousandths trim no_urls given ≡ accepted filled
unfolding normalize fill fill_node fill_kws checks first_error nodes_checks node_checks model_paths
    valid_number
given_accepted = refl

normalize-normalize_example : normalize thousandths trim no_urls filled ≡ accepted filled
normalize-normalize_example =
    normalize-normalize thousandths trim no_urls given filled given_accepted

normalize-IsSound_example : IsSound thousandths trim no_urls filled
normalize-IsSound_example = normalize-IsSound thousandths trim no_urls given filled given_accepted

abbrev join : Text → ℕ → Text
join dir n = n ∷ dir

abbrev stat : Text → Stat
stat p = regular

files_fine : validate_model_files thousandths join stat filled asr_file [] ≡ none
unfolding validate_model_files needs files dirs check_paths node_files
files_fine = refl

validate_model_files-IsReady_example :
    (validate_model_files thousandths join stat filled asr_file [] ≡ none)
    ↔ IsReady thousandths join stat filled [] asr_file
validate_model_files-IsReady_example =
    validate_model_files-IsReady thousandths join stat filled asr_file []
