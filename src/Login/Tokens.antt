-- ===== src/Login/Tokens.antt =====
-- The tokens of the administrators: core/auth/jwt_handler.py, and `get_current_user` of
-- api/dependencies.py. A time is a number of microseconds.
use text.Mathlib.Text.{starts_with}
use super_agent_platform.Base.{
  strip, get, put, ℕ, ◌+◌, ◌*◌, ◌/◌, String, not, Option, none, some, ◌==◌, if◌then◌else◌, get_or,
  drop_chars, Value, Fields, null, bool, num, str, dict, end, ℕ_eq, String_eq,
}
use super_agent_platform.Login.Attempts.{minute}

-- A refusal of a request: an `HTTPException`, by its status and its detail; the detail of a lockout
-- has the minutes that are left.
pub data Refusal : Type 0 where
  http : ℕ → String → Refusal
  locked_out : ℕ → Refusal

pub data Response {ℓ} (A : Type ℓ) : Type ℓ where
  returned : A → Response A
  refused : Refusal → Response A

abbrev pub and_then : {A B : Type 0} → Response A → (A → Response B) → Response B
and_then (returned a) f = f a
and_then (refused r) f = refused r

-- What `jwt.decode` does.
pub data Decoded : Type 0 where
  expired : Decoded
  invalid : Decoded
  claims : Fields → Decoded
  not_a_dict : Decoded

-- `jwt.encode` and, at a time, `jwt.decode`, with the key and the algorithm of the settings, the
-- `access_token_expire_minutes` of the settings, `str` of a claim that is no text, and `str.lower`.
pub record Jwt : Type 0 where
  pub encode : Fields → String
  pub decode : ℕ → String → Decoded
  pub access_token_expire_minutes : ℕ
  pub to_text : Value → String
  pub lower : String → String

-- `str(value or default)`
unfoldable pub claim_text : Jwt → Option Value → String → String
claim_text jwt none default = default
claim_text jwt (some null) default = default
claim_text jwt (some (str s)) default = if s == "" then default else s
claim_text jwt (some (bool b)) default = if b then jwt.to_text (bool b) else default
claim_text jwt (some (num n)) default = if n == 0 then default else jwt.to_text (num n)
claim_text jwt (some (dict end)) default = default
claim_text jwt (some v) default = jwt.to_text v

module _ (jwt : Jwt) where
  -- The claims that `create_access_token` encodes.
  abbrev pub with_expiry : ℕ → Fields → ℕ → Fields
  with_expiry now payload minutes = put "exp" (num ((now + minutes * minute) / 1000000)) payload

  -- `create_access_token`
  unfoldable pub create_access_token : ℕ → Fields → Option ℕ → String
  create_access_token now payload expires_minutes =
      jwt.encode (with_expiry now payload (get_or expires_minutes jwt.access_token_expire_minutes))

  -- The result or the exception of `jwt.decode`, as `verify_token` treats it.
  unfoldable pub decoded_claims : Decoded → Response Fields
  decoded_claims expired = refused (http 401 "token_expired")
  decoded_claims invalid = refused (http 401 "invalid_token")
  decoded_claims (claims payload) = returned payload
  decoded_claims not_a_dict = refused (http 401 "invalid_token_payload")

  -- `verify_token`
  unfoldable pub verify_token : ℕ → String → Response Fields
  unfolding decoded_claims
  verify_token now token =
      if strip token == ""
      then refused (http 401 "invalid_or_missing_token")
      else decoded_claims (jwt.decode now token)

  -- `get_current_user`, for the value of the header `Authorization`.
  unfoldable pub get_current_user : ℕ → Option String → Response Fields
  unfolding verify_token
  get_current_user now none = refused (http 401 "missing_authorization_header")
  get_current_user now (some authorization) =
      if authorization == ""
      then refused (http 401 "missing_authorization_header")
      else if not (starts_with (jwt.lower authorization) "bearer ")
      then refused (http 401 "invalid_authorization_scheme")
      else verify_token now (strip (drop_chars 7 authorization))

  -- `_assert_full_auth` of api/routers/auth.py
  unfoldable pub assert_full_auth : Fields → Response String
  unfolding claim_text
  assert_full_auth current_user =
      if claim_text jwt (get "stage" current_user) "" == "pre_auth"
      then refused (http 401 "invalid_token")
      else returned (claim_text jwt (get "sub" current_user) "admin")
