-- ===== src/Playback/Framing.antt =====
-- What the frames of a line come to: the samples that were fed, cut into frames and encoded in order.
use gocalis.Common.{
  ℕ, zero, suc, ◌-◌, ◌≤◌, ◌<◌, ◌≡◌, refl, ap, ◌∙◌, sym, subst, true, Option, none, some, List, [],
  ◌∷◌, ◌++◌, length, length-append, length-take, length-drop, take, drop, take-drop, take_all, All,
  concat, append_assoc, append-nil, arith, leb, Bool-cases, inl, inr,
}
use gocalis.Playback.{PlayError, Line, replicate, padded, frame_loop, push_frames}

pub concat-snoc : (xss : List (List ℕ)) (xs : List ℕ) → concat (xss ++ xs ∷ []) ≡ concat xss ++ xs
concat-snoc [] xs = append-nil xs
concat-snoc (ys ∷ xss) xs =
    ap (λ l. ys ++ l) (concat-snoc xss xs) ∙ sym (append_assoc ys (concat xss) xs)

All-snoc :
    (P : List ℕ → Type 0) (xss : List (List ℕ)) (xs : List ℕ)
    → All P xss
    → P xs
    → All P (xss ++ xs ∷ [])
All-snoc P [] xs h p = (p, tt)
All-snoc P (ys ∷ xss) xs h p = (h.0, All-snoc P xss xs h.1 p)

-- A connection that takes every frame.
abbrev pub open_link : ℕ → Option PlayError
open_link n = none

-- An encoder keeps a state from one frame to the next.
module _ {Enc : Type 0} (pack : Enc → List ℕ → Enc × List ℕ) where
  -- The encoder that does not fail.
  abbrev pub sound : Enc → List ℕ → Enc × Option (List ℕ)
  sound e frame = let r = pack e frame in (r.0, some r.1)

  abbrev pub coded : Enc → List (List ℕ) → List (List ℕ)
  coded e [] = []
  coded e (b ∷ blocks) = (pack e b).1 ∷ coded (pack e b).0 blocks

  abbrev pub behind : Enc → List (List ℕ) → Enc
  behind e [] = e
  behind e (b ∷ blocks) = behind (pack e b).0 blocks

  coded-snoc :
      (e : Enc) (blocks : List (List ℕ)) (b : List ℕ)
      → coded e (blocks ++ b ∷ []) ≡ coded e blocks ++ (pack (behind e blocks) b).1 ∷ []
  coded-snoc e [] b = refl
  coded-snoc e (x ∷ blocks) b = ap (λ l. (pack e x).1 ∷ l) (coded-snoc (pack e x).0 blocks b)

  behind-snoc :
      (e : Enc) (blocks : List (List ℕ)) (b : List ℕ)
      → behind e (blocks ++ b ∷ []) ≡ (pack (behind e blocks) b).0
  behind-snoc e [] b = refl
  behind-snoc e (x ∷ blocks) b = behind-snoc (pack e x).0 blocks b

  module _ (start : Enc) (size : ℕ) where
    -- What was sent are the frames of the fed samples in front of the leftover.
    pub record IsFramed (fed : List ℕ) (l : Line Enc) : Type 0 where
      pub blocks : List (List ℕ)
      pub joined : concat blocks ++ l.rest ≡ fed
      pub sized : All (λ b. length b ≡ size) blocks
      pub reached : l.enc ≡ behind start blocks
      pub out : l.sent ≡ coded start blocks

    -- At the end all the fed samples are in frames, the last one filled up with silence.
    pub record IsPlayed (silence : ℕ) (fed : List ℕ) (sent : List (List ℕ)) : Type 0 where
      pub blocks : List (List ℕ)
      pub filled : ℕ
      pub joined : concat blocks ≡ fed ++ replicate filled silence
      pub short : filled < size
      pub sized : All (λ b. length b ≡ size) blocks
      pub out : sent ≡ coded start blocks

    -- A line that sends one more frame and keeps these samples.
    abbrev pub with_frame : Line Enc → List ℕ → List ℕ → Line Enc
    with_frame l b rest = record {
      enc = (pack l.enc b).0;
      rest = rest;
      sent = l.sent ++ (pack l.enc b).1 ∷ [];
    }

    pub with_frame-IsFramed :
        (fed : List ℕ) (l : Line Enc) (b rest : List ℕ)
        → IsFramed fed l
        → length b ≡ size
        → (more : List ℕ) → b ++ rest ≡ l.rest ++ more
        → IsFramed (fed ++ more) (with_frame l b rest)
    with_frame-IsFramed fed l b rest v full more cut = record {
      blocks = v.blocks ++ b ∷ [];
      joined =
          ap (λ xs. xs ++ rest) (concat-snoc v.blocks b)
          ∙ append_assoc (concat v.blocks) b rest
          ∙ ap (λ xs. concat v.blocks ++ xs) cut
          ∙ sym (append_assoc (concat v.blocks) l.rest more)
          ∙ ap (λ xs. xs ++ more) v.joined;
      sized = All-snoc _ v.blocks b v.sized full;
      reached = ap (λ e. (pack e b).0) v.reached ∙ sym (behind-snoc start v.blocks b);
      out =
          ap (λ e. l.sent ++ (pack e b).1 ∷ []) v.reached
          ∙ ap (λ ps. ps ++ (pack (behind start v.blocks) b).1 ∷ []) v.out
          ∙ sym (coded-snoc start v.blocks b);
    }

    -- A round that gives no error.
    abbrev pub Works : (Line Enc → Line Enc × Option PlayError) → Type 0
    Works step =
        (l : Line Enc) → step l ≡ (with_frame l (take size l.rest) (drop size l.rest), none)

    abbrev Framed : List ℕ → Line Enc × Option PlayError → Type 0
    Framed fed r = (l : Line Enc) × (r ≡ (l, none)) × IsFramed fed l × (length l.rest < size)

    frame_loop_more :
        (step : Line Enc → Line Enc × Option PlayError) (l l' : Line Enc) (fuel : ℕ)
        → leb size (length l.rest) ≡ true
        → step l ≡ (l', none)
        → frame_loop size step (suc fuel) l ≡ frame_loop size step fuel l'
    unfolding frame_loop
    frame_loop_more step l l' fuel more one =
        rw more
          (ap (λ r. elim r.1 [ some e ↦ (r.0, some e) | none ↦ frame_loop size step fuel r.0 ]) one)

    loop-Framed :
        (step : Line Enc → Line Enc × Option PlayError)
        → Works step
        → 0 < size
        → (fed : List ℕ) (fuel : ℕ) (l : Line Enc) → length l.rest ≤ fuel
        → IsFramed fed l
        → Framed fed (frame_loop size step fuel l)
    unfolding frame_loop
    loop-Framed step works pos fed zero l enough v = (l, refl, v, omega (arith, enough))
    loop-Framed step works pos fed (suc fuel) l enough v =
        elim (Bool-cases (leb size (length l.rest))) [
          | inl more ↦
              let l' = with_frame l (take size l.rest) (drop size l.rest) in
              let full : length (take size l.rest) ≡ size =
                ground (arith, more, length-take size l.rest) in
              let shorter : length (drop size l.rest) ≤ fuel =
                ground (arith, more, enough, pos, length-drop size l.rest) in
              let cut : take size l.rest ++ drop size l.rest ≡ l.rest ++ [] =
                take-drop size l.rest ∙ sym (append-nil l.rest) in
              let v' : IsFramed fed l' =
                subst (λ xs. IsFramed xs l') (append-nil fed)
                  (with_frame-IsFramed fed l (take size l.rest) (drop size l.rest) v full [] cut) in
              let (end, e, framed, left) = loop-Framed step works pos fed fuel l' shorter v' in
              (end, frame_loop_more step l l' fuel more (works l) ∙ e, framed, left)
          | inr done ↦ (l, rw done refl, v, ground arith)
        ]

    -- A push of more samples.
    pub push-Framed :
        (step : Line Enc → Line Enc × Option PlayError)
        → Works step
        → 0 < size
        → (fed : List ℕ) (l : Line Enc) (samples : List ℕ) → IsFramed fed l
        → Framed (fed ++ samples) (push_frames size step l samples)
    unfolding push_frames
    push-Framed step works pos fed l samples v =
        loop-Framed step works pos (fed ++ samples) (length (l.rest ++ samples))
          (record l { rest = l.rest ++ samples }) (omega arith)
          (record {
            blocks = v.blocks;
            joined =
                sym (append_assoc (concat v.blocks) l.rest samples)
                ∙ ap (λ xs. xs ++ samples) v.joined;
            sized = v.sized;
            reached = v.reached;
            out = v.out;
          })

    length-replicate : (n x : ℕ) → length (replicate n x) ≡ n
    length-replicate zero x = refl
    length-replicate (suc n) x = omega (arith, length-replicate n x)

    -- The flush of a leftover that is shorter than a frame.
    pub padded-IsPlayed :
        (silence : ℕ) (fed : List ℕ) (l : Line Enc)
        → IsFramed fed l
        → 0 < length l.rest
        → length l.rest < size
        → IsPlayed silence fed (with_frame l (padded size silence l.rest) []).sent
    unfolding padded
    padded-IsPlayed silence fed l v some_left short =
        let fill = size - length l.rest in
        let full : length (padded size silence l.rest) ≡ size = omega (
          arith,
          short,
          length-append (take size l.rest) (replicate fill silence),
          length-take size l.rest,
          length-replicate fill silence,
        ) in
        let cut : padded size silence l.rest ++ [] ≡ l.rest ++ replicate fill silence =
          append-nil (padded size silence l.rest)
          ∙ ap (λ xs. xs ++ replicate fill silence) (take_all size l.rest (omega (arith, short))) in
        let w =
          with_frame-IsFramed fed l (padded size silence l.rest) [] v full (replicate fill silence)
            cut in
        record {
          blocks = w.blocks;
          filled = fill;
          joined = sym (append-nil (concat w.blocks)) ∙ w.joined;
          short = omega (arith, some_left, short);
          sized = w.sized;
          out = w.out;
        }

    pub empty-IsPlayed :
        (silence : ℕ) (fed : List ℕ) (l : Line Enc)
        → IsFramed fed l
        → l.rest ≡ []
        → 0 < size
        → IsPlayed silence fed l.sent
    empty-IsPlayed silence fed l v none_left pos = record {
      blocks = v.blocks;
      filled = 0;
      joined =
          sym (append-nil (concat v.blocks))
          ∙ ap (λ xs. concat v.blocks ++ xs) (sym none_left)
          ∙ v.joined
          ∙ sym (append-nil fed);
      short = pos;
      sized = v.sized;
      out = v.out;
    }
