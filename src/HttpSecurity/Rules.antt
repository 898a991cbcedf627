-- ===== src/HttpSecurity/Rules.antt =====
-- What the origin checker accepts, against rules that share nothing with its code but the calls of the
-- string, URL and address libraries.
use gocalis.Common.{
  ◌≢◌, Option-cases, Option, ◌≡◌, refl, ap, ◌∙◌, sym, subst, ◌↔◌, arith, Bool, true, false, ◌||◌,
  none, some, List, [], ◌∷◌, Bool-cases, inl, inr,
}
use gocalis.HttpSecurity.{
  localhost, Text, same_text, is_empty, is_among, star, Net, Request, key, allows_any, origin_set,
  is_loopback, request_host, is_own, origin_accepted,
}

pub same_text-eq : (xs ys : Text) → same_text xs ys ≡ true → xs ≡ ys
same_text-eq [] [] h = refl
same_text-eq [] (y ∷ ys) h = absurd (ground (arith, h))
same_text-eq (x ∷ xs) [] h = absurd (ground (arith, h))
same_text-eq (x ∷ xs) (y ∷ ys) h =
    let head : x ≡ y = ground (arith, h) in
    let tail : same_text xs ys ≡ true = ground (arith, h) in
    ap (λ z. z ∷ xs) head ∙ ap (λ l. y ∷ l) (same_text-eq xs ys tail)

pub same_text_refl : (xs : Text) → same_text xs xs ≡ true
same_text_refl [] = refl
same_text_refl (x ∷ xs) = ground (arith, same_text_refl xs)

pub empty_text : (xs : Text) → is_empty xs ≡ true → xs ≡ []
empty_text [] h = refl
empty_text (x ∷ xs) h = absurd (ground (arith, h))

pub full_text : (xs : Text) → is_empty xs ≡ false → xs ≢ []
full_text xs h e = ground (arith, h, ap is_empty e)

pub text-full : (xs : Text) → xs ≢ [] → is_empty xs ≡ false
text-full [] h = absurd (h refl)
text-full (x ∷ xs) h = refl

different_text : (xs ys : Text) → same_text xs ys ≡ false → xs ≢ ys
different_text xs ys h e = ground (arith, h, ap (λ t. same_text t ys) e ∙ same_text_refl ys)

text-different : (xs ys : Text) → xs ≢ ys → same_text xs ys ≡ false
text-different xs ys h = elim (Bool-cases (same_text xs ys)) [
  | inl e ↦ absurd (h (same_text-eq xs ys e))
  | inr e ↦ e
]

or_true : (a b : Bool) → b ≡ true → (a || b) ≡ true
or_true true b h = refl
or_true false b h = h

module _ (net : Net) where
  -- An entry of the allowed list that is "*", with spaces around it or not.
  pub data HasStar : List Text → Type 0 where
    star_here : {o : Text} {allowed : List Text} → net.trim o ≡ 42 ∷ [] → HasStar (o ∷ allowed)
    star_later : {o : Text} {allowed : List Text} → HasStar allowed → HasStar (o ∷ allowed)

  -- An entry that names an origin: neither "*" nor blank, and the same text as the origin but for
  -- slashes at the end and for case.
  pub data Names (origin : Text) : List Text → Type 0 where
    here :
        {o : Text} {allowed : List Text}
        → net.trim o ≢ 42 ∷ []
        → net.trim o ≢ []
        → net.lower (net.strip (net.trim o)) ≡ net.lower (net.strip origin)
        → Names origin (o ∷ allowed)
    there : {o : Text} {allowed : List Text} → Names origin allowed → Names origin (o ∷ allowed)

  -- No entry says anything.
  unfoldable pub AllBlank : List Text → Type 0
  AllBlank [] = Unit
  AllBlank (o ∷ allowed) = (net.trim o ≡ []) × AllBlank allowed

  -- "localhost", or the address of a loopback.
  pub data IsLocal (host : Text) : Type 0 where
    by_name : host ≡ 108 ∷ 111 ∷ 99 ∷ 97 ∷ 108 ∷ 104 ∷ 111 ∷ 115 ∷ 116 ∷ [] → IsLocal host
    by_address : net.loopback_ip host ≡ some true → IsLocal host

  -- The host that a request was sent to, without its port where it has one.
  pub data IsTarget (r : Request) (host : Text) : Type 0 where
    without_port : net.split_host r.host ≡ some host → IsTarget r host
    as_sent : net.split_host r.host ≡ none → r.host ≡ host → IsTarget r host

  -- Why a connection may be accepted.
  pub data Permits (allowed : List Text) (r : Request) : Type 0 where
    any_origin : HasStar allowed → Permits allowed r
    no_origin : r.origin ≡ [] → Permits allowed r
    listed : Names r.origin allowed → Permits allowed r
    from_loopback :
        (host : Text)
        → AllBlank allowed
        → net.hostname r.origin ≡ some host
        → IsLocal host
        → Permits allowed r
    same_origin :
        (host target : Text)
        → AllBlank allowed
        → net.hostname r.origin ≡ some host
        → IsTarget r target
        → net.equal_fold host target ≡ true
        → Permits allowed r

  any-HasStar : (allowed : List Text) → allows_any net allowed ≡ true → HasStar allowed
  unfolding allows_any
  any-HasStar [] h = absurd (ground (arith, h))
  any-HasStar (o ∷ allowed) h = elim (Bool-cases (same_text (net.trim o) star)) [
    | inl s ↦ star_here (same_text-eq _ _ s)
    | inr ns ↦ star_later (any-HasStar allowed (ground (arith, h, ns)))
  ]

  HasStar-any : (allowed : List Text) → HasStar allowed → allows_any net allowed ≡ true
  unfolding allows_any
  HasStar-any [] s = elim s [ ]
  HasStar-any (o ∷ allowed) (star_here e) = ap (λ t. same_text t star || allows_any net allowed) e
  HasStar-any (o ∷ allowed) (star_later s) =
      or_true (same_text (net.trim o) star) _ (HasStar-any allowed s)

  set-AllBlank :
      (allowed : List Text)
      → allows_any net allowed ≡ false
      → origin_set net allowed ≡ []
      → AllBlank allowed
  unfolding origin_set allows_any AllBlank
  set-AllBlank [] any e = tt
  set-AllBlank (o ∷ allowed) any e =
      let ns : same_text (net.trim o) star ≡ false = ground (arith, any) in
      let later : allows_any net allowed ≡ false = ground (arith, any) in
      elim (Bool-cases (is_empty (net.trim o))) [
        | inl blank ↦ (
          empty_text (net.trim o) blank,
          set-AllBlank allowed later (ground (arith, e, ns, blank)),
        )
        | inr full ↦ absurd (ground (arith, e, ns, full))
      ]

  AllBlank-set : (allowed : List Text) → AllBlank allowed → origin_set net allowed ≡ []
  unfolding origin_set AllBlank
  AllBlank-set [] b = refl
  AllBlank-set (o ∷ allowed) b =
      let blank : is_empty (net.trim o) ≡ true = ap is_empty b.0 in
      let ns : same_text (net.trim o) star ≡ false = ap (λ t. same_text t star) b.0 in
      ground (arith, blank, ns, AllBlank-set allowed b.1)

  loopback-IsLocal : (host : Text) → is_loopback net host ≡ true → IsLocal host
  unfolding is_loopback
  loopback-IsLocal host h = elim (Bool-cases (same_text host localhost)) [
    | inl named ↦ by_name (same_text-eq host localhost named)
    | inr unnamed ↦ elim (Option-cases (net.loopback_ip host)) [
      | inl e ↦ absurd (ground (arith, h, unnamed, e))
      | inr (b, e) ↦ by_address (e ∙ ap some (ground (arith, h, unnamed, e)))
    ]
  ]

  IsLocal-loopback : (host : Text) → IsLocal host → is_loopback net host ≡ true
  unfolding is_loopback
  IsLocal-loopback host (by_name e) =
      let named : same_text host localhost ≡ true =
        ap (λ t. same_text t localhost) e ∙ same_text_refl localhost in
      ground (arith, named)
  IsLocal-loopback host (by_address e) =
      or_true (same_text host localhost) _
        (ap (λ (o : Option Bool). elim o [ some b ↦ b | none ↦ false ]) e)

  host-IsTarget : (r : Request) → IsTarget r (request_host net r.host)
  unfolding request_host
  host-IsTarget r = elim (Option-cases (net.split_host r.host)) [
    | inl e ↦ as_sent e (ground (arith, e))
    | inr (h, e) ↦ without_port (ground (arith, e))
  ]

  IsTarget-host :
      (r : Request) (target : Text) → IsTarget r target → request_host net r.host ≡ target
  unfolding request_host
  IsTarget-host r target (without_port e) = ground (arith, e)
  IsTarget-host r target (as_sent e f) = ground (arith, e, f)

  among-Names :
      (origin : Text) (allowed : List Text)
      → is_among (key net origin) (origin_set net allowed) ≡ true
      → Names origin allowed
  unfolding origin_set
  among-Names origin [] h = absurd (ground (arith, h))
  among-Names origin (o ∷ allowed) h = elim (Bool-cases (same_text (net.trim o) star)) [
    | inl s ↦ there (among-Names origin allowed (ground (arith, h, s)))
    | inr ns ↦ elim (Bool-cases (is_empty (net.trim o))) [
      | inl e ↦ there (among-Names origin allowed (ground (arith, h, ns, e)))
      | inr ne ↦ elim (Bool-cases (same_text (key net origin) (key net (net.trim o)))) [
        | inl eq ↦
            here (different_text (net.trim o) star ns) (full_text (net.trim o) ne)
              (sym (same_text-eq _ _ eq))
        | inr neq ↦ there (among-Names origin allowed (ground (arith, h, ns, ne, neq)))
      ]
    ]
  ]

  Names-among :
      (origin : Text) (allowed : List Text)
      → Names origin allowed
      → is_among (key net origin) (origin_set net allowed) ≡ true
  unfolding origin_set
  Names-among origin [] n = elim n [ ]
  Names-among origin (o ∷ allowed) (here distinct full e) =
      let ns = text-different (net.trim o) star distinct in
      let ne = text-full (net.trim o) full in
      let equal : same_text (key net origin) (key net (net.trim o)) ≡ true =
        subst (λ t. same_text (key net origin) t ≡ true) (sym e)
          (same_text_refl (key net origin)) in
      ground (arith, ns, ne, equal)
  Names-among origin (o ∷ allowed) (there n) = ground (arith, Names-among origin allowed n)

  own-Permits :
      (allowed : List Text) (r : Request) (set : List Text) (o : Option Text)
      → allows_any net allowed ≡ false
      → origin_set net allowed ≡ set
      → net.hostname r.origin ≡ o
      → is_own net set r o ≡ true
      → Permits allowed r
  own-Permits allowed r [] none any e f h = absurd (ground (arith, h))
  own-Permits allowed r [] (some host) any e f h = elim (Bool-cases (is_loopback net host)) [
    | inl loop ↦ from_loopback host (set-AllBlank allowed any e) f (loopback-IsLocal host loop)
    | inr far ↦
        same_origin host (request_host net r.host) (set-AllBlank allowed any e) f (host-IsTarget r)
          (ground (arith, h, far))
  ]
  own-Permits allowed r (x ∷ set) none any e f h = absurd (ground (arith, h))
  own-Permits allowed r (x ∷ set) (some host) any e f h = absurd (ground (arith, h))

  accepted-Permits :
      (allowed : List Text) (r : Request) → origin_accepted net allowed r ≡ true → Permits allowed r
  unfolding origin_accepted
  accepted-Permits allowed r h = elim (Bool-cases (allows_any net allowed)) [
    | inl any ↦ any_origin (any-HasStar allowed any)
    | inr not_any ↦ elim (Bool-cases (is_empty r.origin)) [
      | inl none_given ↦ no_origin (empty_text r.origin none_given)
      | inr given ↦ elim (Bool-cases (is_among (key net r.origin) (origin_set net allowed))) [
        | inl among ↦ listed (among-Names r.origin allowed among)
        | inr foreign ↦
            own-Permits allowed r (origin_set net allowed) (net.hostname r.origin) not_any refl refl
              (ground (arith, h, not_any, given, foreign))
      ]
    ]
  ]

  Permits-own :
      (allowed : List Text) (r : Request)
      → is_own net (origin_set net allowed) r (net.hostname r.origin) ≡ true
      → origin_accepted net allowed r ≡ true
  unfolding origin_accepted
  Permits-own allowed r h = ground (arith, h)

  Permits-accepted :
      (allowed : List Text) (r : Request) → Permits allowed r → origin_accepted net allowed r ≡ true
  unfolding origin_accepted
  Permits-accepted allowed r (any_origin star_given) =
      ground (arith, HasStar-any allowed star_given)
  Permits-accepted allowed r (no_origin e) =
      let empty : is_empty r.origin ≡ true = ap is_empty e in ground (arith, empty)
  Permits-accepted allowed r (listed n) = ground (arith, Names-among r.origin allowed n)
  Permits-accepted allowed r (from_loopback host blank f local) = Permits-own allowed r (
      ap (λ set. is_own net set r (net.hostname r.origin)) (AllBlank-set allowed blank)
      ∙ ap (is_own net [] r) f
      ∙ ap (λ b. b || net.equal_fold host (request_host net r.host)) (IsLocal-loopback host local))
  Permits-accepted allowed r (same_origin host target blank f sent same) = Permits-own allowed r (
      ap (λ set. is_own net set r (net.hostname r.origin)) (AllBlank-set allowed blank)
      ∙ ap (is_own net [] r) f
      ∙ or_true (is_loopback net host) _
          (ap (net.equal_fold host) (IsTarget-host r target sent) ∙ same))

  -- A websocket connection is accepted exactly where one of these holds: an entry of the allowed list
  -- is "*"; it has no origin; an entry that is not blank is its origin, but for spaces around the
  -- entry, slashes at the end of both and case; or every entry is blank, and the host of its origin is
  -- localhost, a loopback address or the host that the request was sent to.
  pub origin_accepted_iff :
      (allowed : List Text) (r : Request)
      → (origin_accepted net allowed r ≡ true) ↔ Permits allowed r
  origin_accepted_iff allowed r = (accepted-Permits allowed r, Permits-accepted allowed r)
