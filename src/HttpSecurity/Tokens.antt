-- ===== src/HttpSecurity/Tokens.antt =====
-- What a request must carry where a token is configured.
use gocalis.Common.{
  subst, take-drop, ◌≡◌, ◌≢◌, ap, ◌∙◌, sym, ◌↔◌, arith, Bool, true, false, not, ◌&&◌, [], ◌∷◌, ◌++◌,
  take, drop, Bool-cases, inl, inr,
}
use gocalis.HttpSecurity.{Text, same_text, is_empty, bearer, Net, Request, token, token_valid}
use gocalis.HttpSecurity.Rules.{same_text-eq, same_text_refl, empty_text, full_text, text-full}

module _ (net : Net) (r : Request) where
  -- An Authorization header that begins with "bearer ", in whatever case.
  unfoldable pub HasBearer : Type 0
  HasBearer =
      (r.authorization ≢ [])
      × ((rest : Text) × (net.lower r.authorization ≡ 98 ∷ 101 ∷ 97 ∷ 114 ∷ 101 ∷ 114 ∷ 32 ∷ rest))

  -- The bearer token, without it the token of the header, and without both that of the query.
  pub data Carries (carried : Text) : Type 0 where
    by_bearer : HasBearer → net.trim (drop 7 r.authorization) ≡ carried → Carries carried
    by_header : ¬ HasBearer → r.x_auth_token ≢ [] → r.x_auth_token ≡ carried → Carries carried
    by_query : ¬ HasBearer → r.x_auth_token ≡ [] → r.query_token ≡ carried → Carries carried

  abbrev has_bearer : Bool
  has_bearer =
      not (is_empty r.authorization) && same_text (take 7 (net.lower r.authorization)) bearer

  prefix-rest :
      (text : Text)
      → same_text (take 7 text) bearer ≡ true
      → (rest : Text) × (text ≡ 98 ∷ 101 ∷ 97 ∷ 114 ∷ 101 ∷ 114 ∷ 32 ∷ rest)
  prefix-rest text h =
      (drop 7 text, sym (take-drop 7 text) ∙ ap (λ p. p ++ drop 7 text) (same_text-eq _ _ h))

  has-HasBearer : has_bearer ≡ true → HasBearer
  unfolding HasBearer
  has-HasBearer h = (
    full_text r.authorization (ground (arith, h)),
    prefix-rest (net.lower r.authorization) (ground (arith, h)),
  )

  HasBearer-has : HasBearer → has_bearer ≡ true
  unfolding HasBearer
  HasBearer-has (given, (rest, e)) =
      let full = text-full r.authorization given in
      let same : same_text (take 7 (net.lower r.authorization)) bearer ≡ true =
        ap (λ t. same_text (take 7 t) bearer) e in
      ground (arith, full, same)

  lacks-bearer : has_bearer ≡ false → ¬ HasBearer
  lacks-bearer h b = ground (arith, h, HasBearer-has b)

  token-Carries : Carries (token net r)
  unfolding token
  token-Carries = elim (Bool-cases has_bearer) [
    | inl b ↦ by_bearer (has-HasBearer b) (ground (arith, b))
    | inr nb ↦ elim (Bool-cases (is_empty r.x_auth_token)) [
      | inl e ↦ by_query (lacks-bearer nb) (empty_text r.x_auth_token e) (ground (arith, nb, e))
      | inr ne ↦ by_header (lacks-bearer nb) (full_text r.x_auth_token ne) (ground (arith, nb, ne))
    ]
  ]

  Carries-token : (carried : Text) → Carries carried → token net r ≡ carried
  unfolding token
  Carries-token carried (by_bearer b e) = ground (arith, HasBearer-has b, e)
  Carries-token carried (by_header nb full e) = elim (Bool-cases has_bearer) [
    | inl b ↦ absurd (nb (has-HasBearer b))
    | inr lacks ↦ ground (arith, lacks, text-full r.x_auth_token full, e)
  ]
  Carries-token carried (by_query nb empty e) = elim (Bool-cases has_bearer) [
    | inl b ↦ absurd (nb (has-HasBearer b))
    | inr lacks ↦
        let blank : is_empty r.x_auth_token ≡ true = ap is_empty empty in
        ground (arith, lacks, blank, e)
  ]

  -- With a token configured, a request is valid exactly where it carries that token: behind "bearer "
  -- in its Authorization header, trimmed; without this in its X-Auth-Token header; and without both in
  -- its query. A token at a later of these places does not count where an earlier place has one.
  pub token_valid_iff :
      (expected : Text) → expected ≢ [] → (token_valid net r expected ≡ true) ↔ Carries expected
  unfolding token_valid
  token_valid_iff expected h = (
    λ valid.
        let e : token net r ≡ expected =
          same_text-eq (token net r) expected (ground (arith, valid, text-full expected h)) in
        subst Carries e token-Carries,
    λ carried.
        let e = Carries-token expected carried in
        let given : is_empty (token net r) ≡ false = ap is_empty e ∙ text-full expected h in
        let equal : same_text (token net r) expected ≡ true =
          ap (λ t. same_text t expected) e ∙ same_text_refl expected in
        ground (arith, text-full expected h, given, equal),
  )
