-- ===== src/Hub/Delivery.antt =====
-- Every client gets what was sent to it in order and without a gap, in every history of the hub.
use gocalis.Common.{
  ℕ, suc, ◌≤◌, ◌≡◌, refl, ap, ◌∙◌, sym, arith, ◌==◌, ltb, false, Option, none, some, List, [], ◌∷◌,
  ◌++◌, if◌then◌else◌, length, length-append, map, append_assoc, append-nil, if_both, if_cases, All,
  Bool-cases, inl, inr,
}
use gocalis.Hub.{
  Client, close_client, send, new_client, Turn, sees_done, writes, fails_to_write, write_next,
  write_round, keep_some, write_loop,
}

-- What the socket took and what is still to come are the offered messages in their order; those still
-- to come are in the channel of a client that is not done.
pub record IsOrderly (c : Client) : Type 0 where
  pub pending : List ℕ
  pub order : c.written ++ pending ≡ c.offered
  pub kept : c.done ≡ false → pending ≡ c.out
  pub begins : (after : List ℕ) × (c.out ++ after ≡ pending)
  pub bounded : length c.out ≤ 32

pub send-IsOrderly : (message : ℕ) (c : Client) → IsOrderly c → IsOrderly (send message c)
unfolding send close_client
send-IsOrderly message c v =
    let longer : c.written ++ (v.pending ++ message ∷ []) ≡ c.offered ++ message ∷ [] =
      sym (append_assoc c.written v.pending (message ∷ [])) ∙ ap (λ l. l ++ message ∷ []) v.order in
    if_cases IsOrderly c.done (λ _. v)
      (λ live.
        if_cases IsOrderly (ltb (length c.out) 32)
          (λ room. record {
            pending = v.pending ++ message ∷ [];
            order = longer;
            kept = λ _. ap (λ l. l ++ message ∷ []) (v.kept live);
            begins = (
              [],
              append-nil (c.out ++ message ∷ []) ∙ ap (λ l. l ++ message ∷ []) (sym (v.kept live)),
            );
            bounded = ground (arith, room, length-append c.out (message ∷ []));
          })
          (λ full. record {
            pending = v.pending ++ message ∷ [];
            order = longer;
            kept = λ e. absurd (ground (arith, e));
            begins = (message ∷ [], ap (λ l. l ++ message ∷ []) (sym (v.kept live)));
            bounded = v.bounded;
          }))

pub close_client-IsOrderly : (c : Client) → IsOrderly c → IsOrderly (close_client c)
unfolding close_client
close_client-IsOrderly c v = record {
  pending = v.pending;
  order = v.order;
  kept = λ e. absurd (ground (arith, e));
  begins = v.begins;
  bounded = v.bounded;
}

pub new_client-IsOrderly : (id : ℕ) → IsOrderly (new_client id)
unfolding new_client
new_client-IsOrderly id = record {
  pending = [];
  order = refl;
  kept = λ _. refl;
  begins = ([], refl);
  bounded = omega arith;
}

-- A client that goes on is orderly.
abbrev IsOrderlyStill : Option Client → Type 0
IsOrderlyStill none = Unit
IsOrderlyStill (some c) = IsOrderly c

fewer :
    (c : Client) (message : ℕ) (out : List ℕ)
    → c.out ≡ message ∷ out
    → IsOrderly c
    → length out ≤ 32
fewer c message out e v =
    let count : length c.out ≡ suc (length out) = ap (λ l. length l) e in
    omega (arith, v.bounded, count)

written-IsOrderly :
    (c : Client) (message : ℕ) (out : List ℕ)
    → c.out ≡ message ∷ out
    → IsOrderly c
    → IsOrderly (record c { out = out; written = c.written ++ message ∷ [] })
written-IsOrderly c message out e v = elim (Bool-cases c.done) [
  | inl done ↦
      let (after, b) = v.begins in
      let front : message ∷ (out ++ after) ≡ v.pending = ap (λ l. l ++ after) (sym e) ∙ b in
      record {
        pending = out ++ after;
        order =
            append_assoc c.written (message ∷ []) (out ++ after)
            ∙ ap (λ l. c.written ++ l) front
            ∙ v.order;
        kept = λ live. absurd (ground (arith, live, done));
        begins = (after, refl);
        bounded = fewer c message out e v;
      }
  | inr live ↦ record {
    pending = out;
    order =
        append_assoc c.written (message ∷ []) out
        ∙ ap (λ l. c.written ++ l) (sym (v.kept live ∙ e))
        ∙ v.order;
    kept = λ _. refl;
    begins = ([], append-nil out);
    bounded = fewer c message out e v;
  }
]

next-IsOrderlyStill :
    (turn : Turn) (c : Client) (out : List ℕ)
    → c.out ≡ out
    → IsOrderly c
    → IsOrderlyStill (write_next turn c out)
next-IsOrderlyStill sees_done c out e v = if_both IsOrderlyStill c.done tt v
next-IsOrderlyStill writes c [] e v = v
next-IsOrderlyStill fails_to_write c [] e v = v
next-IsOrderlyStill writes c (message ∷ out) e v = written-IsOrderly c message out e v
next-IsOrderlyStill fails_to_write c (message ∷ out) e v = tt

some-IsOrderly :
    (clients : List Client)
    → All IsOrderly clients
    → (o : Option Client) → IsOrderlyStill o
    → All IsOrderly (keep_some o clients)
some-IsOrderly clients v none h = v
some-IsOrderly clients v (some d) h = (h, v)

pub loop-IsOrderly :
    (id : ℕ) (turn : Turn) (clients : List Client)
    → All IsOrderly clients
    → All IsOrderly (write_loop id turn clients)
unfolding write_loop write_round
loop-IsOrderly id turn [] v = tt
loop-IsOrderly id turn (c ∷ clients) v =
    if_both (All IsOrderly) (c.id == id)
      (some-IsOrderly clients v.1 (write_next turn c c.out)
        (next-IsOrderlyStill turn c c.out refl v.0))
      (v.0, loop-IsOrderly id turn clients v.1)

pub map-IsOrderly :
    (f : Client → Client)
    → ((c : Client) → IsOrderly c → IsOrderly (f c))
    → (clients : List Client) → All IsOrderly clients
    → All IsOrderly (map f clients)
map-IsOrderly f keeps [] v = tt
map-IsOrderly f keeps (c ∷ clients) v = (keeps c v.0, map-IsOrderly f keeps clients v.1)

pub length-map :
    (f : Client → Client) (clients : List Client) → length (map f clients) ≡ length clients
length-map f [] = refl
length-map f (c ∷ clients) = ap (λ n. suc n) (length-map f clients)

length-some :
    (o : Option Client) (clients : List Client)
    → length (keep_some o clients) ≤ suc (length clients)
length-some none clients = omega arith
length-some (some d) clients = omega arith

pub length-loop :
    (id : ℕ) (turn : Turn) (clients : List Client)
    → length (write_loop id turn clients) ≤ length clients
unfolding write_loop
length-loop id turn [] = omega arith
length-loop id turn (c ∷ clients) =
    let later : suc (length (write_loop id turn clients)) ≤ suc (length clients) =
      omega (arith, length-loop id turn clients) in
    if_both (λ (l : List Client). length l ≤ suc (length clients)) (c.id == id)
      (length-some (write_round turn c) clients) later

pub on_client-IsOrderly :
    (id : ℕ) (f : Client → Client)
    → ((c : Client) → IsOrderly c → IsOrderly (f c))
    → (c : Client) → IsOrderly c
    → IsOrderly (if c.id == id then f c else c)
on_client-IsOrderly id f keeps c v = if_both IsOrderly (c.id == id) (keeps c v) v
