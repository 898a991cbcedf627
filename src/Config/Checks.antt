-- ===== src/Config/Checks.antt =====
-- internal/config/config.go: normalizeAndValidate, validNumber and the getters of a node. The defaults
-- of all fields stand before the checks: a check reads no field that a later line fills in, and a
-- configuration that is refused is thrown away.
use gocalis.Common.{
  ℕ, suc, ◌==◌, ltb, Bool, true, false, not, ◌&&◌, ◌||◌, Option, none, some, List, [], ◌∷◌, ◌++◌,
  map, if◌then◌else◌, length, ℤ, pos, negsuc, ltb_ℤ,
}
use gocalis.Config.{
  Text, Floats, AsrEngine, other_asr, TtsEngine, supertonic, other_tts, NodeType, local, rtc_stream,
  other_type, Url, ConfigError, bad_threads, bad_asr_engine, bad_tts_engine, missing_path,
  bad_vad_threshold, bad_vad_silence, bad_speaker, bad_tts, missing_cache_dir, long_phrase, bad_qos,
  bad_broker, bad_node_id, bad_node_type, bad_sample_rate, bad_gain, bad_api_url, missing_stream,
  bad_output_gain, missing_kws_path, bad_kws_threshold, too_many_kws_threads, bad_ask_duration,
  long_response, same_text, is_empty, any, all_nodes, KwsConfig, NodeConfig, Config,
}

-- The checks in the order of the code: a bad one with its error.
abbrev pub Checks : Type 0
Checks = List (Bool × ConfigError)

unfoldable pub first_error : Checks → Option ConfigError
first_error [] = none
first_error ((bad, e) ∷ checks) = let rest = first_error checks in if bad then some e else rest

abbrev pub is_zero : ℤ → Bool
is_zero (pos n) = n == 0
is_zero (negsuc n) = false

abbrev pub is_outside : ℤ → ℤ → ℤ → Bool
is_outside n lo hi = ltb_ℤ n lo || ltb_ℤ hi n

abbrev pub is_long : Text → Bool
is_long text = ltb 4000 (length text)

abbrev pub is_other_asr : AsrEngine → Bool
is_other_asr other_asr = true
is_other_asr _ = false

abbrev pub is_other_tts : TtsEngine → Bool
is_other_tts other_tts = true
is_other_tts _ = false

abbrev pub is_other_type : NodeType → Bool
is_other_type other_type = true
is_other_type _ = false

abbrev pub is_local : NodeType → Bool
is_local local = true
is_local _ = false

abbrev pub is_rtc_stream : NodeType → Bool
is_rtc_stream rtc_stream = true
is_rtc_stream _ = false

abbrev pub mqtt_schemes : List Text
mqtt_schemes =
    (116 ∷ 99 ∷ 112 ∷ []) ∷ (115 ∷ 115 ∷ 108 ∷ []) ∷ (119 ∷ 115 ∷ []) ∷ (119 ∷ 115 ∷ 115 ∷ []) ∷ []

abbrev pub http_schemes : List Text
http_schemes = (104 ∷ 116 ∷ 116 ∷ 112 ∷ []) ∷ (104 ∷ 116 ∷ 116 ∷ 112 ∷ 115 ∷ []) ∷ []

abbrev pub is_bad_broker : Option Url → Bool
is_bad_broker none = true
is_bad_broker (some u) = is_empty u.host || not (any (same_text u.scheme) mqtt_schemes)

abbrev pub is_bad_api : Option Url → Bool
is_bad_api none = true
is_bad_api (some u) =
    is_empty u.host
    || not (any (same_text u.scheme) http_schemes)
    || not (is_empty u.raw_query)
    || not (is_empty u.fragment)

module _ (F : Floats) (trim : Text → Text) (parse_url : Text → Option Url) where
  -- validNumber
  unfoldable pub valid_number : F.Num → ℤ → ℤ → Bool
  valid_number value lo hi =
      not (F.is_nan value)
      && not (F.is_inf value)
      && F.le (F.literal lo) value
      && F.le value (F.literal hi)

  abbrev pub or_literal : F.Num → ℕ → F.Num
  or_literal x n = if F.is_zero x then F.literal (pos (suc n)) else x

  abbrev pub or_int : ℤ → ℕ → ℤ
  or_int x n = if is_zero x then pos (suc n) else x

  unfoldable pub fill_kws : KwsConfig F.Num → KwsConfig F.Num
  fill_kws k = record k {
    threshold = if k.enabled then or_literal k.threshold 249 else k.threshold;
  }

  unfoldable pub fill_node : NodeConfig F.Num → NodeConfig F.Num
  fill_node n = record n {
    sample_rate = if is_local n.type then or_int n.sample_rate 15999 else n.sample_rate;
    gain = if is_local n.type then or_literal n.gain 999 else n.gain;
    kws = fill_kws n.kws;
  }

  unfoldable pub fill : Config F.Num → Config F.Num
  fill c = record c {
    global_num_threads = or_int c.global_num_threads 3;
    language = if is_empty c.language then 101 ∷ 115 ∷ [] else c.language;
    vad_threshold = or_literal c.vad_threshold 499;
    min_silence_ms = or_int c.min_silence_ms 699;
    speed = or_literal c.speed 999;
    nodes = map fill_node c.nodes;
  }

  abbrev pub is_blank : Text → Bool
  is_blank text = is_empty (trim text)

  -- The paths that the engines need.
  abbrev pub tts_paths : Config F.Num → TtsEngine → List Text
  tts_paths c supertonic = c.model_dir ∷ []
  tts_paths c _ = c.tts_model ∷ c.tts_tokens ∷ c.data_dir ∷ []

  unfoldable pub model_paths : Config F.Num → List Text
  model_paths c =
      c.asr_encoder
      ∷ c.asr_decoder
      ∷ c.asr_tokens
      ∷ c.silero_path
      ∷ c.speaker_model
      ∷ tts_paths c c.tts_engine

  abbrev pub kws_paths : KwsConfig F.Num → List Text
  kws_paths k = k.encoder ∷ k.decoder ∷ k.joiner ∷ k.tokens ∷ k.keywords_file ∷ []

  -- A round of the loop over the nodes, with the ids that stand before it.
  unfoldable pub node_checks : ℤ → List Text → NodeConfig F.Num → Checks
  node_checks threads seen n =
      (
        is_blank n.node_id || same_text n.node_id all_nodes || any (same_text n.node_id) seen,
        bad_node_id n.node_id,
      )
      ∷ (is_other_type n.type, bad_node_type n.node_id)
      ∷ (
        is_local n.type && is_outside n.sample_rate (pos 16000) (pos 16000),
        bad_sample_rate n.node_id,
      )
      ∷ (is_local n.type && not (valid_number n.gain (pos 10) (pos 100000)), bad_gain n.node_id)
      ∷ (is_rtc_stream n.type && is_bad_api (parse_url n.api_url), bad_api_url n.node_id)
      ∷ (is_rtc_stream n.type && is_empty n.stream_name, missing_stream n.node_id)
      ∷ (not (valid_number n.output_gain_db (negsuc 59999) (pos 30000)), bad_output_gain n.node_id)
      ∷ (n.kws.enabled && any is_empty (kws_paths n.kws), missing_kws_path n.node_id)
      ∷ (
        n.kws.enabled && not (valid_number n.kws.threshold (pos 10) (pos 1000)),
        bad_kws_threshold n.node_id,
      )
      ∷ (is_outside n.kws.num_threads (pos 0) threads, too_many_kws_threads n.node_id)
      ∷ (
        not (valid_number n.kws.auto_ask_timeout (pos 0) (pos 120000))
            || not (valid_number n.kws.post_speech_silence (pos 0) (pos 20000))
            || not (valid_number n.kws.auto_ask_capture_delay (negsuc 999) (pos 20000)),
        bad_ask_duration n.node_id,
      )
      ∷ (any is_long n.kws.wake_responses, long_response n.node_id)
      ∷ []

  unfoldable pub nodes_checks : ℤ → List Text → List (NodeConfig F.Num) → Checks
  nodes_checks threads seen [] = []
  nodes_checks threads seen (n ∷ nodes) =
      node_checks threads seen n ++ nodes_checks threads (n.node_id ∷ seen) nodes

  unfoldable pub checks : Config F.Num → Checks
  checks c =
      (is_outside c.global_num_threads (pos 1) (pos 256), bad_threads)
      ∷ (is_other_asr c.asr_engine, bad_asr_engine)
      ∷ (is_other_tts c.tts_engine, bad_tts_engine)
      ∷ (any is_blank (model_paths c), missing_path)
      ∷ (not (valid_number c.vad_threshold (pos 10) (pos 1000)), bad_vad_threshold)
      ∷ (is_outside c.min_silence_ms (pos 1) (pos 20000), bad_vad_silence)
      ∷ (
        not (valid_number c.confidence (pos 0) (pos 1000))
            || not (valid_number c.min_audio (pos 0) (pos 120000)),
        bad_speaker,
      )
      ∷ (
        not (valid_number c.speed (pos 100) (pos 10000))
            || ltb_ℤ c.sid (pos 0)
            || is_outside c.num_steps (pos 0) (pos 100),
        bad_tts,
      )
      ∷ (c.cache_enabled && is_empty c.cache_dir, missing_cache_dir)
      ∷ (any is_long (c.pre_generate ++ c.challenge_prompts), long_phrase)
      ∷ (is_outside c.qos (pos 0) (pos 2), bad_qos)
      ∷ (c.mqtt_enabled && is_bad_broker (parse_url c.broker), bad_broker)
      ∷ nodes_checks c.global_num_threads [] c.nodes

  -- A configuration, or the first error.
  pub data Normalized : Type 0 where
    accepted : Config F.Num → Normalized
    rejected : ConfigError → Normalized

  abbrev pub judged : Config F.Num → Option ConfigError → Normalized
  judged c none = accepted c
  judged c (some e) = rejected e

  unfoldable pub normalize : Config F.Num → Normalized
  normalize c = judged (fill c) (first_error (checks (fill c)))

  -- The getters of a node.
  abbrev pub is_positive : F.Num → Bool
  is_positive x = F.le (F.literal (pos 0)) x && not (F.is_zero x)

  unfoldable pub get_kws_num_threads : NodeConfig F.Num → ℤ → ℤ
  get_kws_num_threads n default =
      if ltb_ℤ (pos 0) n.kws.num_threads then n.kws.num_threads else default

  unfoldable pub get_auto_ask_timeout : NodeConfig F.Num → F.Num → F.Num
  get_auto_ask_timeout n default =
      if is_positive n.kws.auto_ask_timeout then n.kws.auto_ask_timeout else default

  unfoldable pub get_auto_ask_capture_delay : NodeConfig F.Num → F.Num → F.Num
  get_auto_ask_capture_delay n default =
      let delay = n.kws.auto_ask_capture_delay in
      if not (F.is_nan delay) && not (F.le (F.literal (pos 0)) delay) then default else delay

  unfoldable pub get_post_speech_silence : NodeConfig F.Num → F.Num → F.Num
  get_post_speech_silence n default =
      if is_positive n.kws.post_speech_silence then n.kws.post_speech_silence else default
