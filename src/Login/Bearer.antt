-- ===== src/Login/Bearer.antt =====
-- How the requests of api/routers/auth.py read the tokens that core/auth/jwt_handler.py makes.
use text.Mathlib.Text.{starts_with}
use super_agent_platform.Base.{
  strip, get, ℕ, ◌/◌, String, ◌+++◌, ◌≡◌, refl, ap, ◌∙◌, inl, inr, Bool, true, false, not, Option,
  some, arith, ltb, ◌==◌, if◌then◌else◌, Bool-cases, str_eq→eq, chars, drop_chars,
  drop_chars-append, chars-append, Fields, num, ℕ_eq, String_eq,
}
use super_agent_platform.Login.Tokens.{
  Jwt, decoded_claims, verify_token, get_current_user, http, returned, refused, expired, claims,
}

-- What python-jose and `str.lower` do with a token: it is decoded to the claims that it encodes
-- until it has expired, it has a visible character, no white space around it, and the lower case of
-- a header with it starts with the lower case of the prefix.
pub record Faithful (jwt : Jwt) (payload : Fields) : Type 0 where
  pub decode_law :
      (now exp : ℕ)
      → get "exp" payload ≡ some (num exp)
      → jwt.decode now (jwt.encode payload)
        ≡ (if ltb exp (now / 1000000) then expired else claims payload)
  pub token_law : strip (jwt.encode payload) ≡ jwt.encode payload
  pub visible_law : (jwt.encode payload == "") ≡ false
  pub lower_law : starts_with (jwt.lower ("Bearer " +++ jwt.encode payload)) "bearer " ≡ true

-- The header `Authorization` for a token.
abbrev pub bearer : String → Option String
bearer token = some ("Bearer " +++ token)

prefixed_visible : (s : String) → (("Bearer " +++ s) == "") ≡ false
prefixed_visible s = elim (Bool-cases (("Bearer " +++ s) == "")) [
  | inr visible ↦ visible
  | inl empty ↦
      absurd
        (omega (arith, ap chars (str_eq→eq ("Bearer " +++ s) "" empty), chars-append "Bearer " s))
]

module _ (jwt : Jwt) (payload : Fields) (faithful : Faithful jwt payload) where
  -- A token is read by the claims that it encodes.
  pub verify_token-encode :
      (now exp : ℕ)
      → get "exp" payload ≡ some (num exp)
      → verify_token jwt now (jwt.encode payload)
        ≡ (if ltb exp (now / 1000000) then refused (http 401 "token_expired") else returned payload)
  unfolding verify_token decoded_claims
  verify_token-encode now exp h =
      let decode = decoded_claims jwt (jwt.decode now (jwt.encode payload)) in
      ap (λ s. if s == "" then refused (http 401 "invalid_or_missing_token") else decode)
        (faithful.token_law)
      ∙ ap (λ b. if b then refused (http 401 "invalid_or_missing_token") else decode)
          (faithful.visible_law)
      ∙ ap (decoded_claims jwt) (faithful.decode_law now exp h)
      ∙ unless_expired (ltb exp (now / 1000000))
    where
      unless_expired :
          (b : Bool)
          → decoded_claims jwt (if b then expired else claims payload)
            ≡ (if b then refused (http 401 "token_expired") else returned payload)
      unless_expired true = refl
      unless_expired false = refl

  pub get_current_user-bearer :
      (now : ℕ)
      → get_current_user jwt now (bearer (jwt.encode payload))
        ≡ verify_token jwt now (jwt.encode payload)
  unfolding get_current_user
  get_current_user-bearer now =
      let token = jwt.encode payload in
      let verify = verify_token jwt now (strip (drop_chars 7 ("Bearer " +++ token))) in
      ap
        (λ b.
          if b
          then refused (http 401 "missing_authorization_header")
          else if not (starts_with (jwt.lower ("Bearer " +++ token)) "bearer ")
          then refused (http 401 "invalid_authorization_scheme")
          else verify)
        (prefixed_visible token)
      ∙ ap (λ b. if not b then refused (http 401 "invalid_authorization_scheme") else verify)
          (faithful.lower_law)
      ∙ ap (λ s. verify_token jwt now (strip s)) (drop_chars-append "Bearer " token)
      ∙ ap (verify_token jwt now) (faithful.token_law)
