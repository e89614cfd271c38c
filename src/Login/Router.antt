-- ===== src/Login/Router.antt =====
-- The requests of api/routers/auth.py. A request is a function of the state: the tables, the times
-- of the failed attempts that the process keeps by address, and the audit log.
use super_agent_platform.Base.{
  strip, lookup, insert, ℕ, ◌-◌, String, Bool, true, false, ◌&&◌, ◌||◌, Option, none, some, List,
  [], ◌∷◌, ◌++◌, ltb, leb, ◌==◌, if◌then◌else◌, get_or, length, chars, all_chars, Fields, str, end,
  field, ℕ_eq, String_eq,
}
use super_agent_platform.Login.Attempts.{
  Attempt, minute, insert_attempt, check_lockout, get_remaining_lockout,
}
use super_agent_platform.Login.Accounts.{
  AdminUser, AdminTotpRecord, update_last_login, get_totp, Passwords, authenticate,
}
use super_agent_platform.Login.Tokens.{
  Response, Jwt, create_access_token, http, locked_out, returned, refused,
}

pub record AuditEntry : Type 0 where
  pub action : String
  pub username : String
  pub ip_address : String
  pub user_agent : Option String

pub record World : Type 0 where
  pub users : List AdminUser
  pub totp : List AdminTotpRecord
  pub attempts : List Attempt
  pub attempts_by_ip : List (String × List ℕ)
  pub audit : List AuditEntry

-- The time of a request, the identifier and the secret that it draws, and the libraries: the codes
-- of a time (`totp.verify` with its window), the QR code, and the order of texts in the database.
pub record Context : Type 0 where
  pub now : ℕ
  pub drawn_id : ℕ
  pub random_secret : String
  pub jwt : Jwt
  pub passwords : Passwords
  pub verify_code : ℕ → String → String → Bool
  pub qr_code : String → String → String
  pub before : String → String → Bool

abbrev pub max_attempts_per_minute : ℕ
max_attempts_per_minute = 5

-- `while attempts and now - attempts[0] > _WINDOW: attempts.popleft()`
unfoldable pub drop_expired : ℕ → List ℕ → List ℕ
drop_expired now [] = []
drop_expired now (t ∷ attempts) =
    let rest = drop_expired now attempts in if ltb minute (now - t) then rest else t ∷ attempts

-- `[A-Za-z0-9.-]`
abbrev pub is_username_char : ℕ → Bool
is_username_char c =
    (leb 65 c && leb c 90)
    || (leb 97 c && leb c 122)
    || (leb 48 c && leb c 57)
    || c == 46
    || c == 45

-- `_validate_username`
unfoldable pub validate_username : String → Response String
validate_username username =
    let candidate = strip username in
    if leb 3 (chars candidate) && leb (chars candidate) 50 && all_chars is_username_char candidate
    then returned candidate
    else refused (http 422 "username_debe_tener_3_50_y_solo_letras_numeros_puntos_guiones")

-- `_validate_password`
unfoldable pub validate_password : String → Response String
validate_password password =
    if ltb (chars password) 8
    then refused (http 422 "password_minimo_8_caracteres")
    else returned password

-- `AdminUserResponse`
pub record AdminUserResponse : Type 0 where
  pub id : ℕ
  pub username : String
  pub is_active : Bool
  pub created_at : ℕ
  pub last_login_at : Option ℕ

-- `_to_admin_user_response`
unfoldable pub to_admin_user_response : AdminUser → AdminUserResponse
to_admin_user_response user = record {
  id = user.id;
  username = user.username;
  is_active = user.is_active;
  created_at = user.created_at;
  last_login_at = user.last_login_at;
}

-- What `issue_token` returns.
pub data Login : Type 0 where
  requires_2fa : String → Login
  access_token : String → Login

-- The address and the user agent of a request.
pub record Peer : Type 0 where
  pub host : Option String
  pub user_agent : Option String

module _ (c : Context) where
  abbrev client_host : Peer → String
  client_host peer = get_or peer.host "unknown"

  -- `issue_token` after the window of the address was brought up to date, for a refused password.
  unfoldable pub fail_login : Peer → String → List ℕ → World → Response Login × World
  unfolding insert insert_attempt
  fail_login peer username attempts w = (
    refused (http 401 "invalid_credentials"),
    record w {
      attempts_by_ip = insert (client_host peer) (attempts ++ c.now ∷ []) w.attempts_by_ip;
      attempts = insert_attempt c.now (client_host peer) (some username) false w.attempts;
      audit =
          w.audit
          ++ record {
            action = "login_failed";
            username = username;
            ip_address = client_host peer;
            user_agent = peer.user_agent;
          }
            ∷ [];
    },
  )

  -- `{"sub": username}`
  abbrev pub subject : String → Fields
  subject username = field "sub" (str username) end

  -- `{"sub": username, "stage": "pre_auth"}`
  abbrev pub pre_auth_subject : String → Fields
  pre_auth_subject username = field "sub" (str username) (field "stage" (str "pre_auth") end)

  -- `totp_record is not None and totp_record.enabled`
  abbrev pub has_second_factor : Option AdminTotpRecord → Bool
  has_second_factor none = false
  has_second_factor (some r) = r.enabled

  -- `issue_token` for a password that is right.
  unfoldable pub pass_login : Peer → String → AdminUser → World → Response Login × World
  unfolding insert_attempt get_totp create_access_token update_last_login
  pass_login peer username user w =
      let w' : World = record w {
        attempts = insert_attempt c.now (client_host peer) (some username) true w.attempts;
      } in
      if has_second_factor (get_totp username w.totp)
      then (
        returned
            (requires_2fa (create_access_token c.jwt c.now (pre_auth_subject username) (some 5))),
        w',
      )
      else (
        returned (access_token (create_access_token c.jwt c.now (subject username) none)),
        record w' {
          users = update_last_login c.now user.id w.users;
          audit =
              w.audit
              ++ record {
                action = "login_success";
                username = username;
                ip_address = client_host peer;
                user_agent = peer.user_agent;
              }
                ∷ [];
        },
      )

  -- `issue_token` from the check of the credentials on.
  unfoldable pub check_credentials :
      Peer → String → List ℕ → Option AdminUser → World → Response Login × World
  unfolding fail_login pass_login
  check_credentials peer username attempts none = fail_login peer username attempts
  check_credentials peer username attempts (some user) = pass_login peer username user

  -- `issue_token`
  unfoldable pub issue_token : String → String → Peer → World → Response Login × World
  unfolding check_lockout get_remaining_lockout drop_expired lookup insert authenticate
      check_credentials
  issue_token raw_username password peer w =
      let host = client_host peer in
      let attempts = drop_expired c.now (get_or (lookup host w.attempts_by_ip) []) in
      let username = strip raw_username in
      let w' : World = record w { attempts_by_ip = insert host attempts w.attempts_by_ip } in
      if check_lockout c.now host w.attempts
      then (refused (locked_out (get_remaining_lockout c.now host w.attempts)), w)
      else if leb max_attempts_per_minute (length attempts)
      then (refused (http 429 "too_many_login_attempts"), w')
      else check_credentials peer username attempts
          (authenticate c.passwords username password w'.users) w'
