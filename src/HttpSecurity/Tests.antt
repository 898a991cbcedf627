-- ===== src/HttpSecurity/Tests.antt =====
-- A server that allows one origin, and its token.
use gocalis.Common.{◌≡◌, ap, arith, ◌↔◌, refl, true, false, none, some, [], ◌∷◌}
use gocalis.HttpSecurity.{
  same_text, Net, Request, origin_accepted, allows_any, origin_set, is_empty, token_valid,
}
use gocalis.HttpSecurity.Rules.{Permits, origin_accepted_iff}
use gocalis.HttpSecurity.Tokens.{Carries, token_valid_iff}

abbrev plain : Net
plain = record {
  trim = λ t. t;
  strip = λ t. t;
  lower = λ t. t;
  equal_fold = same_text;
  hostname = λ t. some t;
  loopback_ip = λ t. none;
  split_host = λ t. none;
}

abbrev request : Request
request = record {
  origin = 7 ∷ [];
  host = 7 ∷ [];
  authorization = [];
  x_auth_token = 5 ∷ [];
  query_token = [];
}

foreign_refused : origin_accepted plain ((8 ∷ []) ∷ []) request ≡ false
unfolding origin_accepted allows_any origin_set
foreign_refused = refl

origin_accepted_iff_example :
    (origin_accepted plain ((8 ∷ []) ∷ []) request ≡ true) ↔ Permits plain ((8 ∷ []) ∷ []) request
origin_accepted_iff_example = origin_accepted_iff plain ((8 ∷ []) ∷ []) request

token_valid_iff_example :
    (token_valid plain request (5 ∷ []) ≡ true) ↔ Carries plain request (5 ∷ [])
token_valid_iff_example =
    token_valid_iff plain request (5 ∷ []) (λ e. ground (arith, ap is_empty e))
