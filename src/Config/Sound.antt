-- ===== src/Config/Sound.antt =====
-- What the rest of the program may rely on in a configuration that is accepted.
use gocalis.Common.{
  ◌≡◌, ap, Bool, true, false, ◌&&◌, Option, none, List, [], ◌∷◌, ◌++◌, ℤ, pos, negsuc, ◌≤ℤ◌, All,
  All-map, arith,
}
use gocalis.Config.{Text, Floats, Url, same_text, is_empty, any, all_nodes, NodeConfig, Config}
use gocalis.Config.Checks.{
  first_error, is_outside, is_long, is_local, is_blank, model_paths, kws_paths, node_checks,
  nodes_checks, checks, accepted, normalize,
}
use gocalis.Config.Accepted.{
  first_error-cons, first_error-append, any-false, or_false, accepted-checks,
}

inside : (n lo hi : ℤ) → is_outside n lo hi ≡ false → (lo ≤ℤ n) × (n ≤ℤ hi)
inside n lo hi h = (ground (arith, h), ground (arith, h))

and_false : (a b : Bool) → (a && b) ≡ false → a ≡ true → b ≡ false
and_false true b h e = h
and_false false b h e = absurd (ground (arith, e))

exactly : (n : ℤ) → is_outside n (pos 16000) (pos 16000) ≡ false → n ≡ pos 16000
exactly (pos n) h = ap pos (ground (arith, h))
exactly (negsuc n) h = absurd (ground (arith, h))

module _ (F : Floats) (trim : Text → Text) (parse_url : Text → Option Url) where
  pub record IsSoundNode (threads : ℤ) (n : NodeConfig F.Num) : Type 0 where
    pub named : is_blank F trim parse_url n.node_id ≡ false
    pub single : same_text n.node_id all_nodes ≡ false
    pub captured : is_local n.type ≡ true → n.sample_rate ≡ pos 16000
    pub budget : (pos 0 ≤ℤ n.kws.num_threads) × (n.kws.num_threads ≤ℤ threads)
    pub spotted :
        n.kws.enabled ≡ true → All (λ p. is_empty p ≡ false) (kws_paths F trim parse_url n.kws)

  -- No node has the id of one that stands before it.
  pub IsDistinct : List (NodeConfig F.Num) → Type 0
  IsDistinct [] = Unit
  IsDistinct (n ∷ nodes) = All (λ m. same_text m.node_id n.node_id ≡ false) nodes × IsDistinct nodes

  pub record IsSound (c : Config F.Num) : Type 0 where
    pub threads : (pos 1 ≤ℤ c.global_num_threads) × (c.global_num_threads ≤ℤ pos 256)
    pub silence : (pos 1 ≤ℤ c.min_silence_ms) × (c.min_silence_ms ≤ℤ pos 20000)
    pub quality : (pos 0 ≤ℤ c.qos) × (c.qos ≤ℤ pos 2)
    pub paths : All (λ p. is_blank F trim parse_url p ≡ false) (model_paths F trim parse_url c)
    pub phrases : All (λ t. is_long t ≡ false) (c.pre_generate ++ c.challenge_prompts)
    pub nodes : All (IsSoundNode c.global_num_threads) c.nodes
    pub distinct : IsDistinct c.nodes

  node-IsSoundNode :
      (threads : ℤ) (seen : List Text) (n : NodeConfig F.Num)
      → first_error (node_checks F trim parse_url threads seen n) ≡ none
      → IsSoundNode threads n × (any (same_text n.node_id) seen ≡ false)
  unfolding node_checks
  node-IsSoundNode threads seen n h =
      let (id, h1) = first_error-cons _ _ _ h in
      let (type, h2) = first_error-cons _ _ _ h1 in
      let (rate, h3) = first_error-cons _ _ _ h2 in
      let (gain, h4) = first_error-cons _ _ _ h3 in
      let (api, h5) = first_error-cons _ _ _ h4 in
      let (stream, h6) = first_error-cons _ _ _ h5 in
      let (output, h7) = first_error-cons _ _ _ h6 in
      let (paths, h8) = first_error-cons _ _ _ h7 in
      let (threshold, h9) = first_error-cons _ _ _ h8 in
      let (budget, h10) = first_error-cons _ _ _ h9 in
      let (reserved, fresh) = or_false _ _ id in
      let (blank, all) = or_false _ _ reserved in
      (
        record {
          named = blank;
          single = all;
          captured = λ e. exactly n.sample_rate (and_false _ _ rate e);
          budget = inside n.kws.num_threads (pos 0) threads budget;
          spotted =
              λ e. any-false is_empty (kws_paths F trim parse_url n.kws) (and_false _ _ paths e);
        },
        fresh,
      )

  -- A node that is sound, with an id that is none of these.
  abbrev IsNew : ℤ → List Text → NodeConfig F.Num → Type 0
  IsNew threads seen n = IsSoundNode threads n × All (λ s. same_text n.node_id s ≡ false) seen

  nodes-IsNew :
      (threads : ℤ) (seen : List Text) (nodes : List (NodeConfig F.Num))
      → first_error (nodes_checks F trim parse_url threads seen nodes) ≡ none
      → All (IsNew threads seen) nodes × IsDistinct nodes
  unfolding nodes_checks IsDistinct
  nodes-IsNew threads seen [] h = (tt, tt)
  nodes-IsNew threads seen (n ∷ nodes) h =
      let (here, there) =
        first_error-append (node_checks F trim parse_url threads seen n)
          (nodes_checks F trim parse_url threads (n.node_id ∷ seen) nodes) h in
      let (sound, fresh) = node-IsSoundNode threads seen n here in
      let (new, distinct) = nodes-IsNew threads (n.node_id ∷ seen) nodes there in
      (
        (
          (sound, any-false (same_text n.node_id) seen fresh),
          All-map (IsNew threads (n.node_id ∷ seen)) (IsNew threads seen) (λ m v. (v.0, v.1.1))
              nodes new,
        ),
        (
          All-map (IsNew threads (n.node_id ∷ seen)) (λ m. same_text m.node_id n.node_id ≡ false)
              (λ m v. v.1.0) nodes new,
          distinct,
        ),
      )

  checks-IsSound : (c : Config F.Num) → first_error (checks F trim parse_url c) ≡ none → IsSound c
  unfolding checks
  checks-IsSound c h =
      let (threads, h1) = first_error-cons _ _ _ h in
      let (asr, h2) = first_error-cons _ _ _ h1 in
      let (tts, h3) = first_error-cons _ _ _ h2 in
      let (paths, h4) = first_error-cons _ _ _ h3 in
      let (vad, h5) = first_error-cons _ _ _ h4 in
      let (silence, h6) = first_error-cons _ _ _ h5 in
      let (speaker, h7) = first_error-cons _ _ _ h6 in
      let (speech, h8) = first_error-cons _ _ _ h7 in
      let (cache, h9) = first_error-cons _ _ _ h8 in
      let (phrases, h10) = first_error-cons _ _ _ h9 in
      let (qos, h11) = first_error-cons _ _ _ h10 in
      let (broker, h12) = first_error-cons _ _ _ h11 in
      let (new, distinct) = nodes-IsNew c.global_num_threads [] c.nodes h12 in
      record {
        threads = inside c.global_num_threads (pos 1) (pos 256) threads;
        silence = inside c.min_silence_ms (pos 1) (pos 20000) silence;
        quality = inside c.qos (pos 0) (pos 2) qos;
        paths = any-false (is_blank F trim parse_url) (model_paths F trim parse_url c) paths;
        phrases = any-false is_long (c.pre_generate ++ c.challenge_prompts) phrases;
        nodes =
            All-map (IsNew c.global_num_threads []) (IsSoundNode c.global_num_threads) (λ n v. v.0)
              c.nodes new;
        distinct = distinct;
      }

  -- In a configuration that is accepted the thread count is within [1,256], the silence within its
  -- bounds, the quality of service within [0,2], no needed model path is blank and no phrase too long;
  -- every node has a name that is not "all" and that no earlier node has, captures at 16 kHz if it is
  -- local, stays within the thread budget and has its wake word files if it spots one.
  pub normalize-IsSound :
      (c c' : Config F.Num) → normalize F trim parse_url c ≡ accepted c' → IsSound c'
  normalize-IsSound c c' h = checks-IsSound c' (accepted-checks F trim parse_url c c' h).1
