-- ===== src/HttpSecurity.antt =====
-- internal/httpsec/httpsec.go: the origins of websocket connections, the token of a request and the
-- bound on a body. Texts are lists of bytes; what the string, URL and address libraries answer is a
-- parameter, and so is what the JSON decoder gives.
pub mod Rules
pub mod Tokens
mod Tests
use gocalis.Common.{
  ℕ, ◌==◌, Bool, true, false, not, ◌&&◌, ◌||◌, Option, none, some, List, [], ◌∷◌, if◌then◌else◌,
  take, drop,
}

abbrev pub Text : Type 0
Text = List ℕ

abbrev pub same_text : Text → Text → Bool
same_text [] [] = true
same_text (x ∷ xs) (y ∷ ys) = x == y && same_text xs ys
same_text xs ys = false

abbrev pub is_empty : Text → Bool
is_empty [] = true
is_empty (x ∷ xs) = false

abbrev pub is_among : Text → List Text → Bool
is_among text [] = false
is_among text (other ∷ texts) = same_text text other || is_among text texts

-- "*", "localhost" and "bearer "
abbrev pub star : Text
star = 42 ∷ []

abbrev pub localhost : Text
localhost = 108 ∷ 111 ∷ 99 ∷ 97 ∷ 108 ∷ 104 ∷ 111 ∷ 115 ∷ 116 ∷ []

abbrev pub bearer : Text
bearer = 98 ∷ 101 ∷ 97 ∷ 114 ∷ 101 ∷ 114 ∷ 32 ∷ []

-- strings.TrimSpace, TrimRight of slashes, ToLower and EqualFold; the host name that url.Parse finds;
-- whether net.ParseIP finds an address that is a loopback; the host that net.SplitHostPort finds.
pub record Net : Type 0 where
  pub trim : Text → Text
  pub strip : Text → Text
  pub lower : Text → Text
  pub equal_fold : Text → Text → Bool
  pub hostname : Text → Option Text
  pub loopback_ip : Text → Option Bool
  pub split_host : Text → Option Text

pub record Request : Type 0 where
  pub origin : Text
  pub host : Text
  pub authorization : Text
  pub x_auth_token : Text
  pub query_token : Text

pub data Decoding : Type 0 where
  decoded end_of_input too_large invalid : Decoding

pub data Verdict : Type 0 where
  body_accepted bad_request request_entity_too_large : Verdict

module _ (net : Net) where
  abbrev pub key : Text → Text
  key origin = net.lower (net.strip origin)

  unfoldable pub allows_any : List Text → Bool
  allows_any [] = false
  allows_any (o ∷ allowed) = same_text (net.trim o) star || allows_any allowed

  unfoldable pub origin_set : List Text → List Text
  origin_set [] = []
  origin_set (o ∷ allowed) =
      let rest = origin_set allowed in
      if same_text (net.trim o) star
      then rest
      else if is_empty (net.trim o)
      then rest
      else key (net.trim o) ∷ rest

  unfoldable pub is_loopback : Text → Bool
  is_loopback host =
      same_text host localhost || elim (net.loopback_ip host) [ some b ↦ b | none ↦ false ]

  unfoldable pub request_host : Text → Text
  request_host host = elim (net.split_host host) [ some h ↦ h | none ↦ host ]

  abbrev pub is_own : List Text → Request → Option Text → Bool
  is_own [] r (some host) = is_loopback host || net.equal_fold host (request_host r.host)
  is_own _ r _ = false

  unfoldable pub origin_accepted : List Text → Request → Bool
  origin_accepted allowed r =
      let set = origin_set allowed in
      if allows_any allowed
      then true
      else if is_empty r.origin
      then true
      else if is_among (key r.origin) set
      then true
      else is_own set r (net.hostname r.origin)

  unfoldable pub token : Request → Text
  token r =
      let other = if not (is_empty r.x_auth_token) then r.x_auth_token else r.query_token in
      if not (is_empty r.authorization) && same_text (take 7 (net.lower r.authorization)) bearer
      then net.trim (drop 7 r.authorization)
      else other

  unfoldable pub token_valid : Request → Text → Bool
  token_valid r expected =
      if is_empty expected
      then true
      else if is_empty (token r)
      then false
      else same_text (token r) expected

-- DecodeJSON, with what the two calls of the decoder give.
unfoldable pub decode_json : Decoding → Decoding → Verdict
decode_json decoded end_of_input = body_accepted
decode_json decoded too_large = request_entity_too_large
decode_json decoded _ = bad_request
decode_json too_large _ = request_entity_too_large
decode_json _ _ = bad_request
