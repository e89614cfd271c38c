-- ===== src/Login/TwoFactor.antt =====
-- The second factor in api/routers/auth.py. `current_user` is what `get_current_user` gave.
use Prim.Native.Char.{code}
use super_agent_platform.Base.{
  get, String, Bool, false, not, Option, none, some, ◌==◌, if◌then◌else◌, Fields, ℕ_eq, String_eq,
}
use super_agent_platform.Login.Accounts.{AdminTotpRecord, get_totp, upsert_totp, enable_totp}
use super_agent_platform.Login.Tokens.{
  Response, and_then, claim_text, create_access_token, verify_token, assert_full_auth, http,
  returned, refused,
}
use super_agent_platform.Login.Router.{World, Context, subject, has_second_factor}

-- What a request that was given a value goes on with; a refusal leaves the state.
abbrev pub given_response :
    {A B : Type 0} → Response A → World → (A → Response B × World) → Response B × World
given_response (returned a) w f = f a
given_response (refused r) w f = (refused r, w)

module _ (c : Context) where
  -- `setup_2fa`: the QR code and the secret.
  unfoldable pub setup_2fa : Fields → World → Response (String × String) × World
  unfolding assert_full_auth upsert_totp
  setup_2fa current_user w = given_response (assert_full_auth c.jwt current_user) w (λ username. (
    returned (c.qr_code username c.random_secret, c.random_secret),
    record w { totp = upsert_totp c.drawn_id username c.random_secret false w.totp },
  ))

  -- `confirm_2fa` for the second factor that was read.
  unfoldable pub confirm_code :
      String → String → Option AdminTotpRecord → World → Response String × World
  unfolding enable_totp
  confirm_code username code none w = (refused (http 400 "Ejecuta setup primero"), w)
  confirm_code username code (some r) w =
      if not (c.verify_code c.now r.totp_secret code)
      then (refused (http 400 "Código inválido"), w)
      else (returned "2fa_enabled", record w { totp = enable_totp username w.totp })

  -- `confirm_2fa`
  unfoldable pub confirm_2fa : Fields → String → World → Response String × World
  unfolding assert_full_auth get_totp confirm_code
  confirm_2fa current_user code w =
      given_response (assert_full_auth c.jwt current_user) w
        (λ username. confirm_code username code (get_totp username w.totp) w)

  -- `get_2fa_status`
  unfoldable pub get_2fa_status : Fields → World → Response Bool
  unfolding assert_full_auth get_totp
  get_2fa_status current_user w =
      and_then (assert_full_auth c.jwt current_user)
        (λ username. returned (has_second_factor c (get_totp username w.totp)))

  -- `complete_2fa_login` for the second factor that was read.
  unfoldable pub check_code : String → String → Option AdminTotpRecord → Response String
  unfolding create_access_token
  check_code username code none = refused (http 400 "2FA no configurado")
  check_code username code (some r) =
      if not r.enabled
      then refused (http 400 "2FA no configurado")
      else if not (c.verify_code c.now r.totp_secret code)
      then refused (http 400 "Código inválido")
      else returned (create_access_token c.jwt c.now (subject c username) none)

  -- `complete_2fa_login` for the claims of the token.
  unfoldable pub check_second_factor : String → World → Fields → Response String
  unfolding claim_text get_totp check_code
  check_second_factor code w token_payload =
      let username = claim_text c.jwt (get "sub" token_payload) "" in
      if not (claim_text c.jwt (get "stage" token_payload) "" == "pre_auth")
      then refused (http 401 "Token inválido")
      else if username == ""
      then refused (http 401 "Token inválido")
      else check_code username code (get_totp username w.totp)

  -- `complete_2fa_login`; it changes nothing.
  unfoldable pub complete_2fa_login : String → String → World → Response String
  unfolding verify_token check_second_factor
  complete_2fa_login pre_auth_token code w =
      and_then (verify_token c.jwt c.now pre_auth_token) (check_second_factor code w)
