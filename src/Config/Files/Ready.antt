-- ===== src/Config/Files/Ready.antt =====
-- ValidateModelFiles against the table of what each mode needs.
use gocalis.Common.{
  if◌then◌else◌, ℕ, ◌≡◌, ◌≢◌, refl, sym, ◌↔◌, subst, All-append, false, none, some, [], ◌∷◌, All,
  arith,
}
use gocalis.Config.{Text, Floats, Config}
use gocalis.Config.Files.{
  Mode, webrtc, demo, asr_file, wake_file, wake_file_vad, rtc_say, rtc_record, rtc_loopback,
  other_mode, Stat, regular, directory, Needs, needs, is_supertonic, when, supertonic_files,
  node_files, files, dirs, file_error, dir_error, check_paths, files_then_dirs,
  validate_model_files,
}
use gocalis.Config.Files.Required.{
  HasAsr, IsReady, webrtc_ready, demo_ready, asr_ready, wake_ready, wake_vad_ready, say_ready,
  record_ready, loopback_ready,
}
use gocalis.Config.Files.Checked.{
  AllRegular, regulars-checked, directories-checked, All-parts, both_none, none-both,
}
use gocalis.Config.Files.Tts.{tts_files-regular, regular-tts_files}
use gocalis.Config.Files.Kws.{no_nodes, nodes-EveryNode, nodes-ThisNode}

module _ (F : Floats) (join : Text → ℕ → Text) (stat : Text → Stat) where
  -- What is looked for, model by model.
  record Found (c : Config F.Num) (mode : Mode) (node_id : Text) (m : Needs) : Type 0 where
    asr :
        AllRegular F join stat
          (when F join m.asr (c.asr_encoder ∷ c.asr_decoder ∷ c.asr_tokens ∷ []))
    speaker : AllRegular F join stat (when F join m.speaker (c.speaker_model ∷ []))
    vad : AllRegular F join stat (when F join m.vad (c.silero_path ∷ []))
    tts : AllRegular F join stat (
        when F join m.tts (
          if is_supertonic c.tts_engine
          then supertonic_files F join c.model_dir
          else (c.tts_model ∷ c.tts_tokens ∷ [])))
    nodes : AllRegular F join stat (node_files F join mode m.kws node_id c.nodes)
    data_dirs : All (λ p. stat p ≡ directory) (dirs F join c m)

  module _ (c : Config F.Num) (mode : Mode) (node_id : Text) (m : Needs) where
    files-Found :
        AllRegular F join stat (files F join c mode node_id m)
        → All (λ p. stat p ≡ directory) (dirs F join c m)
        → Found c mode node_id m
    unfolding files
    files-Found h d =
        let (rest4, nodes) =
          All-parts F join stat _ (node_files F join mode m.kws node_id c.nodes) h in
        let (rest3, tts) = All-parts F join stat _ (when F join m.tts _) rest4 in
        let (rest2, vad) = All-parts F join stat _ (when F join m.vad _) rest3 in
        let (asr, speaker) = All-parts F join stat _ (when F join m.speaker _) rest2 in
        record { asr = asr; speaker = speaker; vad = vad; tts = tts; nodes = nodes; data_dirs = d }

    Found-files : Found c mode node_id m → AllRegular F join stat (files F join c mode node_id m)
    unfolding files
    Found-files f =
        let R : Text → Type 0 = λ p. stat p ≡ regular in
        All-append R _ (node_files F join mode m.kws node_id c.nodes)
          (All-append R _ (when F join m.tts _)
            (All-append R _ (when F join m.vad _)
              (All-append R (when F join m.asr _) (when F join m.speaker _) f.asr f.speaker) f.vad)
            f.tts)
          f.nodes

    validate-Found :
        needs mode ≡ some m
        → (validate_model_files F join stat c mode node_id ≡ none) ↔ Found c mode node_id m
    unfolding validate_model_files
    validate-Found known =
        let fs = check_paths F join stat (file_error F join stat) (files F join c mode node_id m) in
        let ds = check_paths F join stat (dir_error F join stat) (dirs F join c m) in
        (
          λ h.
              let checked : files_then_dirs F join stat fs ds ≡ none = ground (arith, h, known) in
              let (fine, there) = both_none F join stat fs ds checked in
              files-Found ((regulars-checked F join stat _).0 fine)
                ((directories-checked F join stat _).0 there),
          λ f.
              let checked =
                none-both F join stat fs ds ((regulars-checked F join stat _).1 (Found-files f))
                  ((directories-checked F join stat _).1 f.data_dirs) in
              ground (arith, known, checked),
        )

  module _ (c : Config F.Num) where
    regular-HasAsr :
        AllRegular F join stat (c.asr_encoder ∷ c.asr_decoder ∷ c.asr_tokens ∷ [])
        ↔ HasAsr F join stat c
    regular-HasAsr = (
      λ h. record { encoder = h.0; decoder = h.1.0; tokens = h.1.1.0 },
      λ a. (a.encoder, (a.decoder, (a.tokens, tt))),
    )

    no_node_files :
        (mode : Mode) (node_id : Text)
        → AllRegular F join stat (node_files F join mode false node_id c.nodes)
    no_node_files mode node_id =
        subst (AllRegular F join stat) (sym (no_nodes F join stat mode node_id c.nodes)) tt

    other_mode-refused :
        (node_id : Text) → validate_model_files F join stat c other_mode node_id ≢ none
    unfolding validate_model_files needs
    other_mode-refused node_id e = ground (arith, e)

    validate-IsReady :
        (mode : Mode) (node_id : Text)
        → validate_model_files F join stat c mode node_id ≡ none
        → IsReady F join stat c node_id mode
    unfolding needs dirs
    validate-IsReady webrtc node_id h =
        let f = (validate-Found c webrtc node_id _ refl).0 h in
        webrtc_ready (regular-HasAsr.0 f.asr) (tts_files-regular F join stat c f.tts f.data_dirs)
          (record { speaker = f.speaker.0 }) (record { silero = f.vad.0 })
          ((nodes-EveryNode F join stat node_id c.nodes).0 f.nodes)
    validate-IsReady demo node_id h =
        let f = (validate-Found c demo node_id _ refl).0 h in
        demo_ready (regular-HasAsr.0 f.asr) (tts_files-regular F join stat c f.tts f.data_dirs)
          (record { speaker = f.speaker.0 })
    validate-IsReady asr_file node_id h =
        let f = (validate-Found c asr_file node_id _ refl).0 h in asr_ready (regular-HasAsr.0 f.asr)
    validate-IsReady wake_file node_id h =
        let f = (validate-Found c wake_file node_id _ refl).0 h in
        wake_ready ((nodes-ThisNode F join stat wake_file node_id c.nodes refl).0 f.nodes)
    validate-IsReady wake_file_vad node_id h =
        let f = (validate-Found c wake_file_vad node_id _ refl).0 h in
        wake_vad_ready (record { silero = f.vad.0 })
          ((nodes-ThisNode F join stat wake_file_vad node_id c.nodes refl).0 f.nodes)
    validate-IsReady rtc_say node_id h =
        let f = (validate-Found c rtc_say node_id _ refl).0 h in
        say_ready (tts_files-regular F join stat c f.tts f.data_dirs)
    validate-IsReady rtc_record node_id h = record_ready
    validate-IsReady rtc_loopback node_id h = loopback_ready
    validate-IsReady other_mode node_id h = absurd (other_mode-refused node_id h)

    IsReady-validate :
        (mode : Mode) (node_id : Text)
        → IsReady F join stat c node_id mode
        → validate_model_files F join stat c mode node_id ≡ none
    unfolding needs dirs
    IsReady-validate webrtc node_id (webrtc_ready a t s v k) =
        let (tts, ds) = regular-tts_files F join stat c t in
        (validate-Found c webrtc node_id _ refl).1 (record {
          asr = regular-HasAsr.1 a;
          speaker = (s.speaker, tt);
          vad = (v.silero, tt);
          tts = tts;
          nodes = (nodes-EveryNode F join stat node_id c.nodes).1 k;
          data_dirs = ds;
        })
    IsReady-validate demo node_id (demo_ready a t s) =
        let (tts, ds) = regular-tts_files F join stat c t in
        (validate-Found c demo node_id _ refl).1 (record {
          asr = regular-HasAsr.1 a;
          speaker = (s.speaker, tt);
          vad = tt;
          tts = tts;
          nodes = no_node_files demo node_id;
          data_dirs = ds;
        })
    IsReady-validate asr_file node_id (asr_ready a) =
        (validate-Found c asr_file node_id _ refl).1 (record {
          asr = regular-HasAsr.1 a;
          speaker = tt;
          vad = tt;
          tts = tt;
          nodes = no_node_files asr_file node_id;
          data_dirs = tt;
        })
    IsReady-validate wake_file node_id (wake_ready k) =
        (validate-Found c wake_file node_id _ refl).1 (record {
          asr = tt;
          speaker = tt;
          vad = tt;
          tts = tt;
          nodes = (nodes-ThisNode F join stat wake_file node_id c.nodes refl).1 k;
          data_dirs = tt;
        })
    IsReady-validate wake_file_vad node_id (wake_vad_ready v k) =
        (validate-Found c wake_file_vad node_id _ refl).1 (record {
          asr = tt;
          speaker = tt;
          vad = (v.silero, tt);
          tts = tt;
          nodes = (nodes-ThisNode F join stat wake_file_vad node_id c.nodes refl).1 k;
          data_dirs = tt;
        })
    IsReady-validate rtc_say node_id (say_ready t) =
        let (tts, ds) = regular-tts_files F join stat c t in
        (validate-Found c rtc_say node_id _ refl).1 (record {
          asr = tt;
          speaker = tt;
          vad = tt;
          tts = tts;
          nodes = no_node_files rtc_say node_id;
          data_dirs = ds;
        })
    IsReady-validate rtc_record node_id record_ready =
        (validate-Found c rtc_record node_id _ refl).1 (record {
          asr = tt;
          speaker = tt;
          vad = tt;
          tts = tt;
          nodes = no_node_files rtc_record node_id;
          data_dirs = tt;
        })
    IsReady-validate rtc_loopback node_id loopback_ready =
        (validate-Found c rtc_loopback node_id _ refl).1 (record {
          asr = tt;
          speaker = tt;
          vad = tt;
          tts = tt;
          nodes = no_node_files rtc_loopback node_id;
          data_dirs = tt;
        })
    IsReady-validate other_mode node_id r = elim r [ ]

    -- ValidateModelFiles gives no error exactly where the mode is a known one and all that it needs is
    -- there as a regular file, and the data of a synthesizer that is not supertonic as a directory:
    -- webrtc, demo and asr-file need the recogniser; webrtc, demo and rtc-say the synthesizer; webrtc and
    -- demo the speaker model; webrtc and wake-file-vad the VAD; webrtc the detectors of all nodes with a
    -- wake word, wake-file and wake-file-vad those of the nodes with the given name.
    pub validate_model_files-IsReady :
        (mode : Mode) (node_id : Text)
        → (validate_model_files F join stat c mode node_id ≡ none)
          ↔ IsReady F join stat c node_id mode
    validate_model_files-IsReady mode node_id =
        (validate-IsReady mode node_id, IsReady-validate mode node_id)
