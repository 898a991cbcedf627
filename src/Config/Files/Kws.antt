-- ===== src/Config/Files/Kws.antt =====
-- The files of the wake word detectors.
use gocalis.Common.{
  ℕ, ◌≡◌, refl, ap, ◌∙◌, ◌↔◌, All-append, All-map, Bool, true, false, ◌&&◌, ◌||◌, List, [], ◌∷◌,
  All, arith,
}
use gocalis.Config.{Text, Floats, same_text, NodeConfig}
use gocalis.Config.Files.{Mode, webrtc, Stat, regular, is_webrtc, when, node_files}
use gocalis.Config.Files.Required.{HasKws, EveryNode, ThisNode}
use gocalis.Config.Files.Checked.{AllRegular, All-parts, when-regular, regular-when}

equal_text : (xs ys : Text) → same_text xs ys ≡ true → xs ≡ ys
equal_text [] [] h = refl
equal_text [] (y ∷ ys) h = absurd (ground (arith, h))
equal_text (x ∷ xs) [] h = absurd (ground (arith, h))
equal_text (x ∷ xs) (y ∷ ys) h =
    let tail : same_text xs ys ≡ true = ground (arith, h) in
    let head : x ≡ y = ground (arith, h) in
    ap (λ z. z ∷ xs) head ∙ ap (λ l. y ∷ l) (equal_text xs ys tail)

same_text_refl : (xs : Text) → same_text xs xs ≡ true
same_text_refl [] = refl
same_text_refl (x ∷ xs) = ground (arith, same_text_refl xs)

module _ (F : Floats) (join : Text → ℕ → Text) (stat : Text → Stat) where
  kws_files : NodeConfig F.Num → List Text
  kws_files n =
      n.kws.encoder ∷ n.kws.decoder ∷ n.kws.joiner ∷ n.kws.tokens ∷ n.kws.keywords_file ∷ []

  regular-HasKws :
      (n : NodeConfig F.Num) → AllRegular F join stat (kws_files n) → HasKws F join stat n
  unfolding kws_files
  regular-HasKws n h = record {
    encoder = h.0;
    decoder = h.1.0;
    joiner = h.1.1.0;
    tokens = h.1.1.1.0;
    keywords = h.1.1.1.1.0;
  }

  HasKws-regular :
      (n : NodeConfig F.Num) → HasKws F join stat n → AllRegular F join stat (kws_files n)
  unfolding kws_files
  HasKws-regular n k = (k.encoder, (k.decoder, (k.joiner, (k.tokens, (k.keywords, tt)))))

  listens : Mode → Text → NodeConfig F.Num → Bool
  listens mode node_id n = n.kws.enabled && (is_webrtc mode || same_text n.node_id node_id)

  nodes-regular :
      (mode : Mode) (node_id : Text) (nodes : List (NodeConfig F.Num))
      → AllRegular F join stat (node_files F join mode true node_id nodes)
        ↔ All (λ n. listens mode node_id n ≡ true → HasKws F join stat n) nodes
  unfolding node_files listens kws_files
  nodes-regular mode node_id [] = (λ _. tt, λ _. tt)
  nodes-regular mode node_id (n ∷ nodes) =
      let b = n.kws.enabled && (is_webrtc mode || same_text n.node_id node_id) in
      (
        λ h.
            let (here, later) = All-parts F join stat (when F join b (kws_files n)) _ h in
            (
              λ e. regular-HasKws n (when-regular F join stat b (kws_files n) here e),
              (nodes-regular mode node_id nodes).0 later,
            ),
        λ k.
            All-append (λ p. stat p ≡ regular) (when F join b (kws_files n)) _
              (regular-when F join stat b (kws_files n) (λ e. HasKws-regular n (k.0 e)))
              ((nodes-regular mode node_id nodes).1 k.1),
      )

  pub no_nodes :
      (mode : Mode) (node_id : Text) (nodes : List (NodeConfig F.Num))
      → node_files F join mode false node_id nodes ≡ []
  unfolding node_files
  no_nodes mode node_id [] = refl
  no_nodes mode node_id (n ∷ nodes) = no_nodes mode node_id nodes

  pub nodes-EveryNode :
      (node_id : Text) (nodes : List (NodeConfig F.Num))
      → AllRegular F join stat (node_files F join webrtc true node_id nodes)
        ↔ EveryNode F join stat nodes
  unfolding EveryNode listens
  nodes-EveryNode node_id nodes =
      let (to, from) = nodes-regular webrtc node_id nodes in
      (
        λ h.
            All-map (λ n. listens webrtc node_id n ≡ true → HasKws F join stat n)
              (λ n. n.kws.enabled ≡ true → HasKws F join stat n) (λ n k on. k (ground (arith, on)))
              nodes (to h),
        λ h. from (
            All-map (λ n. n.kws.enabled ≡ true → HasKws F join stat n)
              (λ n. listens webrtc node_id n ≡ true → HasKws F join stat n)
              (λ n k on. k (ground (arith, on))) nodes h),
      )

  this-listens :
      (mode : Mode) (node_id : Text) (n : NodeConfig F.Num)
      → is_webrtc mode ≡ false
      → n.kws.enabled ≡ true
      → n.node_id ≡ node_id
      → listens mode node_id n ≡ true
  unfolding listens
  this-listens mode node_id n w on e =
      let same : same_text n.node_id node_id ≡ true =
        ap (λ t. same_text t node_id) e ∙ same_text_refl node_id in
      ground (arith, w, on, same)

  listens-this :
      (mode : Mode) (node_id : Text) (n : NodeConfig F.Num)
      → is_webrtc mode ≡ false
      → listens mode node_id n ≡ true
      → (n.kws.enabled ≡ true) × (n.node_id ≡ node_id)
  unfolding listens
  listens-this mode node_id n w h =
      (ground (arith, w, h), equal_text n.node_id node_id (ground (arith, w, h)))

  pub nodes-ThisNode :
      (mode : Mode) (node_id : Text) (nodes : List (NodeConfig F.Num))
      → is_webrtc mode ≡ false
      → AllRegular F join stat (node_files F join mode true node_id nodes)
        ↔ ThisNode F join stat node_id nodes
  unfolding ThisNode
  nodes-ThisNode mode node_id nodes w =
      let (to, from) = nodes-regular mode node_id nodes in
      (
        λ h.
            All-map (λ n. listens mode node_id n ≡ true → HasKws F join stat n)
              (λ n. n.kws.enabled ≡ true → n.node_id ≡ node_id → HasKws F join stat n)
              (λ n k on e. k (this-listens mode node_id n w on e)) nodes (to h),
        λ h. from (
            All-map (λ n. n.kws.enabled ≡ true → n.node_id ≡ node_id → HasKws F join stat n)
              (λ n. listens mode node_id n ≡ true → HasKws F join stat n)
              (λ n k l. let (on, e) = listens-this mode node_id n w l in k on e) nodes h),
      )
