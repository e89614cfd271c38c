-- ===== src/Login/Access.antt =====
-- What the tokens of `issue_token` of api/routers/auth.py open, by the requests of the same file.
use super_agent_platform.Login.Attempts.{minute}
use super_agent_platform.Login.Bearer.{
  Faithful, verify_token-encode, get_current_user-bearer, bearer,
}
use super_agent_platform.Login.Router.{
  Context, Login, pre_auth_subject, requires_2fa, access_token, subject,
}
use super_agent_platform.Login.Tokens.{
  Response, and_then, Jwt, claim_text, with_expiry, create_access_token, get_current_user,
  assert_full_auth, http, returned, refused,
}
use super_agent_platform.Base.{
  get, put, ℕ, ◌+◌, ◌*◌, ◌/◌, String, ◌≡◌, refl, ap, ◌∙◌, Bool, true, false, none, some, ltb, ◌==◌,
  if◌then◌else◌, Fields, ℕ_eq, String_eq,
}

-- What a request that asks for a full login makes of a token: the name of the user, or a refusal.
unfoldable pub full_access : Jwt → ℕ → String → Response String
full_access jwt later token =
    and_then (get_current_user jwt later (bearer token)) (assert_full_auth jwt)

-- The token in what a login returns.
abbrev pub token_of : Login → String
token_of (requires_2fa token) = token
token_of (access_token token) = token

module _ (c : Context) (username : String) where
  -- The claims of the token of a full login, and the second at which it expires.
  unfoldable pub full_payload : Fields
  unfolding put
  full_payload = with_expiry c.jwt c.now (subject c username) c.jwt.access_token_expire_minutes

  abbrev pub full_exp : ℕ
  full_exp = (c.now + c.jwt.access_token_expire_minutes * minute) / 1000000

  -- The claims of the token of a half login, and the second at which it expires.
  unfoldable pub half_payload : Fields
  unfolding put
  half_payload = with_expiry c.jwt c.now (pre_auth_subject c username) 5

  abbrev pub half_exp : ℕ
  half_exp = (c.now + 5 * minute) / 1000000

  -- What is expected of the token of a login: with a second factor it is refused at any time, and
  -- without one it lets the user in until it has expired.
  abbrev pub expected_access : Bool → ℕ → Response String
  expected_access true later =
      refused
        (http 401 (if ltb half_exp (later / 1000000) then "token_expired" else "invalid_token"))
  expected_access false later =
      if ltb full_exp (later / 1000000)
      then refused (http 401 "token_expired")
      else returned (if username == "" then "admin" else username)

  pub full_token-access :
      (later : ℕ)
      → Faithful c.jwt full_payload
      → full_access c.jwt later (create_access_token c.jwt c.now (subject c username) none)
        ≡ expected_access false later
  unfolding full_access create_access_token full_payload get put assert_full_auth claim_text
  full_token-access later faithful =
      ap (λ r. and_then r (assert_full_auth c.jwt))
        (get_current_user-bearer c.jwt full_payload faithful later
          ∙ verify_token-encode c.jwt full_payload faithful later full_exp refl)
      ∙ go (ltb full_exp (later / 1000000))
    where
      go :
          (b : Bool)
          → and_then
              (if b then refused (http 401 "token_expired") else returned full_payload)
              (assert_full_auth c.jwt)
            ≡ (if b
                then refused (http 401 "token_expired")
                else returned (if username == "" then "admin" else username))
      go true = refl
      go false = refl

  half_token-access :
      (later : ℕ)
      → Faithful c.jwt half_payload
      → full_access c.jwt later
          (create_access_token c.jwt c.now (pre_auth_subject c username) (some 5))
        ≡ expected_access true later
  unfolding full_access create_access_token half_payload get put assert_full_auth claim_text
  half_token-access later faithful =
      ap (λ r. and_then r (assert_full_auth c.jwt))
        (get_current_user-bearer c.jwt half_payload faithful later
          ∙ verify_token-encode c.jwt half_payload faithful later half_exp refl)
      ∙ go (ltb half_exp (later / 1000000))
    where
      go :
          (b : Bool)
          → and_then
              (if b then refused (http 401 "token_expired") else returned half_payload)
              (assert_full_auth c.jwt)
            ≡ refused (http 401 (if b then "token_expired" else "invalid_token"))
      go true = refl
      go false = refl

  -- The token of either login.
  pub login-access :
      (second_factor : Bool) (later : ℕ)
      → Faithful c.jwt full_payload
      → Faithful c.jwt half_payload
      → full_access c.jwt later (
          token_of (
            if second_factor
            then requires_2fa
                (create_access_token c.jwt c.now (pre_auth_subject c username) (some 5))
            else access_token (create_access_token c.jwt c.now (subject c username) none)))
        ≡ expected_access second_factor later
  login-access true later full half = half_token-access later half
  login-access false later full half = full_token-access later full
