-- ===== src/Tests/Accounts.antt =====
-- The requests of api/routers/auth.py at a concrete administrator with a second factor.
use super_agent_platform.Login.Access.{
  full_access, token_of, full_payload, half_payload, expected_access,
}
use super_agent_platform.Login.Roundtrip.{create_admin_user-issue_token}
use super_agent_platform.Login.TwoFactor.{given_response, complete_2fa_login}
use super_agent_platform.Login.Users.{add_user, create_admin_user, update_admin_user_password}
use super_agent_platform.Base.{
  strip, lstrip, is_space, lookup, insert, get, put, ℕ, ◌/◌, String, ◌+++◌, ◌≡◌, refl, ap, true,
  false, Option, none, some, [], ◌∷◌, eq_refl, ltb, leb, ◌==◌, if◌then◌else◌, is_none, get_or,
  length, drop_chars, Value, Fields, num, str, end, field, ℕ_eq, String_eq,
}
use super_agent_platform.Login.Attempts.{count_failures_since, check_lockout}
use super_agent_platform.Login.Accounts.{
  AdminUser, AdminTotpRecord, get_by_id, get_by_username, create, update_password, get_totp,
  truncate, hash_password, verify_password, check_user, authenticate,
}
use super_agent_platform.Login.Tokens.{
  and_then, Jwt, create_access_token, get_current_user, assert_full_auth, http, returned, refused,
  expired, invalid, claims,
}
use super_agent_platform.Login.Router.{
  World, Context, drop_expired, validate_username, validate_password, to_admin_user_response, Peer,
  subject, has_second_factor, pass_login, check_credentials, issue_token, requires_2fa,
  access_token,
}
use super_agent_platform.Login.Bearer.{Faithful, bearer}
use super_agent_platform.Login.Admission.{Admitted, issue_token-Admitted}
use super_agent_platform.Login.PreAuth.{
  pre_auth-refused, pre_auth-update_password, pre_auth-complete_2fa_login, pre_auth_payload,
}

abbrev half_login : Fields
half_login = field "sub" (str "ana") (field "stage" (str "pre_auth") (field "exp" (num 300) end))

abbrev full_login : Fields
full_login = field "sub" (str "ana") (field "exp" (num 600) end)

-- A library that knows the two tokens of "ana".
abbrev jwt : Jwt
jwt = record {
  encode = λ payload. if is_none (get "stage" payload) then "full" else "half";
  decode = λ now token.
      if token == "half"
      then (if ltb 300 (now / 1000000) then expired else claims half_login)
      else if token == "full"
      then (if ltb 600 (now / 1000000) then expired else claims full_login)
      else invalid;
  access_token_expire_minutes = 10;
  to_text = λ v. "";
  lower = λ s. "bearer " +++ drop_chars 7 s;
}

abbrev context : Context
context = record {
  now = 0;
  drawn_id = 7;
  random_secret = "secreto";
  jwt = jwt;
  passwords = record { hash = λ p. "h" +++ p; verify = λ p h. ("h" +++ p) == h };
  verify_code = λ now secret code. code == "123456";
  qr_code = λ username secret. username;
  before = λ s t. true;
}

abbrev ana : AdminUser
ana = record {
  id = 1;
  username = "ana";
  password_hash = "hcontrasena";
  is_active = true;
  created_at = 0;
  last_login_at = none;
}

abbrev factor : AdminTotpRecord
factor = record { id = 1; username = "ana"; totp_secret = "secreto"; enabled = true }

abbrev office : Peer
office = record { host = some "10.0.0.1"; user_agent = none }

abbrev world : World
world = record {
  users = ana ∷ [];
  totp = factor ∷ [];
  attempts = [];
  attempts_by_ip = [];
  audit = [];
}

half : (issue_token context " ana" "contrasena" office world).0 ≡ returned (requires_2fa "half")
unfolding issue_token check_lockout count_failures_since drop_expired lookup insert strip lstrip
    is_space authenticate get_by_username check_user verify_password truncate check_credentials
    pass_login get_totp create_access_token put get
half = refl

abbrev num_of : Option Value → ℕ
num_of (some (num n)) = n
num_of _ = 0

faithful : Faithful jwt (pre_auth_payload context " ana")
unfolding pre_auth_payload strip lstrip is_space put get
faithful = record {
  decode_law = λ now exp h.
      ap (λ e. if ltb e (now / 1000000) then expired else claims half_login) (ap num_of h);
  token_law = refl;
  visible_law = refl;
  lower_law = refl;
}

-- A full login of " ana", which the library of the tests reads as it was encoded.
full-Faithful : Faithful jwt (full_payload context (strip " ana"))
unfolding full_payload strip lstrip is_space put get
full-Faithful = record {
  decode_law = λ now exp h.
      ap (λ e. if ltb e (now / 1000000) then expired else claims full_login) (ap num_of h);
  token_law = refl;
  visible_law = refl;
  lower_law = refl;
}

half-Faithful : Faithful jwt (half_payload context (strip " ana"))
unfolding half_payload strip lstrip is_space put get
half-Faithful = record {
  decode_law = λ now exp h.
      ap (λ e. if ltb e (now / 1000000) then expired else claims half_login) (ap num_of h);
  token_law = refl;
  visible_law = refl;
  lower_law = refl;
}

issue_token-Admitted_example :
    Admitted context (strip " ana") "contrasena" office world
    × (full_access jwt 1 (token_of (requires_2fa "half"))
        ≡ expected_access context
            (strip " ana")
            (has_second_factor context (get_totp (strip " ana") world.totp))
            1)
issue_token-Admitted_example =
    issue_token-Admitted context " ana" "contrasena" office world 1 full-Faithful half-Faithful half

pre_auth-refused_example :
    and_then (get_current_user jwt 1 (bearer "half")) (assert_full_auth jwt)
    ≡ refused (http 401 "invalid_token")
pre_auth-refused_example = pre_auth-refused context " ana" faithful "contrasena" office world 1 half

-- A minute later.
abbrev later : Context
later = record context { now = 60000000 }

ana_known : get_by_id 1 world.users ≡ some ana
unfolding get_by_id
ana_known = refl

pre_auth-update_password_example :
    given_response
      (get_current_user jwt 60000000 (bearer "half"))
      world
      (λ current_user. update_admin_user_password later current_user 1 "otra-clave" world)
    ≡ (
      returned "Contraseña actualizada",
      record world {
        users = update_password 1 (hash_password later.passwords "otra-clave") world.users;
      },
    )
pre_auth-update_password_example =
    pre_auth-update_password context " ana" faithful "contrasena" office world later world 1
      "otra-clave" half refl ana_known refl

ana_named : (strip " ana" == "") ≡ false
unfolding strip lstrip is_space
ana_named = refl

factor_known : get_totp (strip " ana") world.totp ≡ some factor
unfolding get_totp strip lstrip is_space
factor_known = refl

pre_auth-complete_2fa_login_example :
    complete_2fa_login (record context { now = 60000000 }) "half" "123456" world
    ≡ returned (create_access_token jwt 60000000 (subject context (strip " ana")) none)
pre_auth-complete_2fa_login_example =
    pre_auth-complete_2fa_login context " ana" faithful "contrasena" office world 60000000 world
      "123456" factor half refl ana_named factor_known refl

-- The state without accounts.
abbrev empty_world : World
empty_world = record { users = []; totp = []; attempts = []; attempts_by_ip = []; audit = [] }

abbrev eva : AdminUser
eva = record {
  id = 7;
  username = "eva";
  password_hash = "hcontrasena";
  is_active = true;
  created_at = 0;
  last_login_at = none;
}

-- A library that knows the token of "eva" at five.
abbrev eva_login : Fields
eva_login = field "sub" (str "eva") (field "exp" (num 600) end)

abbrev eva_context : Context
eva_context = record context {
  jwt = record jwt {
    encode = λ payload. "full";
    decode = λ now token. if ltb 600 (now / 1000000) then expired else claims eva_login;
  };
}

eva_made :
    create_admin_user eva_context full_login "eva" "contrasena" empty_world
    ≡ (returned (to_admin_user_response eva), record empty_world { users = eva ∷ [] })
unfolding create_admin_user validate_username strip lstrip is_space validate_password add_user
    get_by_username create hash_password truncate
eva_made = refl

eva_few :
    leb 5 (length (drop_expired 5 (get_or (lookup "10.0.0.1" empty_world.attempts_by_ip) [])))
    ≡ false
unfolding drop_expired lookup
eva_few = refl

eva-Faithful :
    Faithful eva_context.jwt (full_payload (record eva_context { now = 5 }) (strip "eva"))
unfolding full_payload strip lstrip is_space put get
eva-Faithful = record {
  decode_law = λ now exp h.
      ap (λ e. if ltb e (now / 1000000) then expired else claims eva_login) (ap num_of h);
  token_law = refl;
  visible_law = refl;
  lower_law = refl;
}

create_admin_user-issue_token_example :
    (token : String) × ((issue_token
        (record eva_context { now = 5 })
        "eva"
        "contrasena"
        office
        (record empty_world { users = eva ∷ [] })).0
      ≡ returned (access_token token))
    × (full_access eva_context.jwt 60 token
        ≡ expected_access (record eva_context { now = 5 }) (strip "eva") false 60)
unfolding check_lockout count_failures_since get_totp strip lstrip is_space
create_admin_user-issue_token_example =
    create_admin_user-issue_token eva_context full_login "eva" "contrasena" empty_world office 5 60
      (λ p. eq_refl ("h" +++ p)) eva-Faithful eva_made refl eva_few refl
