-- ===== src/Login/Accounts.antt =====
-- The accounts of the administrators: adapters/storage/repositories/admin_user_repo.py and
-- admin_totp_repo.py over their tables, and core/services/admin_auth_service.py. The identifiers
-- and the times that the database draws are arguments.
use super_agent_platform.Base.{
  sort_by, ℕ, String, Bool, true, not, Option, none, some, List, [], ◌∷◌, ◌++◌, map, ◌==◌,
  if◌then◌else◌, is_none, find_first, utf8_prefix, ℕ_eq, String_eq,
}

-- A row of `admin_users`, which is also the `AdminUser` of core/ports/admin_user_repository.py.
pub record AdminUser : Type 0 where
  pub id : ℕ
  pub username : String
  pub password_hash : String
  pub is_active : Bool
  pub created_at : ℕ
  pub last_login_at : Option ℕ

-- `AdminTOTPRecord`
pub record AdminTotpRecord : Type 0 where
  pub id : ℕ
  pub username : String
  pub totp_secret : String
  pub enabled : Bool

-- `get_by_id`
unfoldable pub get_by_id : ℕ → List AdminUser → Option AdminUser
get_by_id user_id users = find_first (λ (u : AdminUser). u.id == user_id) users

-- `get_by_username`
unfoldable pub get_by_username : String → List AdminUser → Option AdminUser
get_by_username username users = find_first (λ (u : AdminUser). u.username == username) users

-- `create`, which the unique index of `username` may refuse.
unfoldable pub create :
    ℕ → ℕ → String → String → List AdminUser → Option (AdminUser × List AdminUser)
unfolding get_by_username
create id now username password_hash users =
    let user : AdminUser = record {
      id = id;
      username = username;
      password_hash = password_hash;
      is_active = true;
      created_at = now;
      last_login_at = none;
    } in
    if is_none (get_by_username username users) then some (user, users ++ user ∷ []) else none

-- A change of the row with an identifier, if there is one.
abbrev pub update_user : ℕ → (AdminUser → AdminUser) → List AdminUser → List AdminUser
update_user user_id change users =
    map (λ (u : AdminUser). if u.id == user_id then change u else u) users

-- `update_last_login`
unfoldable pub update_last_login : ℕ → ℕ → List AdminUser → List AdminUser
update_last_login now user_id users =
    update_user user_id (λ (u : AdminUser). record u { last_login_at = some now }) users

-- `list_all`, by the order of texts that the database uses.
unfoldable pub list_all : (String → String → Bool) → List AdminUser → List AdminUser
unfolding sort_by
list_all before users = sort_by (λ (u v : AdminUser). before u.username v.username) users

-- `set_active`
unfoldable pub set_active : ℕ → Bool → List AdminUser → List AdminUser
set_active user_id is_active users =
    update_user user_id (λ (u : AdminUser). record u { is_active = is_active }) users

-- `update_password`
unfoldable pub update_password : ℕ → String → List AdminUser → List AdminUser
update_password user_id password_hash users =
    update_user user_id (λ (u : AdminUser). record u { password_hash = password_hash }) users

-- `get` of the second factors
unfoldable pub get_totp : String → List AdminTotpRecord → Option AdminTotpRecord
get_totp username records = find_first (λ (r : AdminTotpRecord). r.username == username) records

-- A change of the second factor of a user, if there is one.
abbrev pub update_totp :
    String → (AdminTotpRecord → AdminTotpRecord) → List AdminTotpRecord → List AdminTotpRecord
update_totp username change records =
    map (λ (r : AdminTotpRecord). if r.username == username then change r else r) records

-- `upsert`
unfoldable pub upsert_totp :
    ℕ → String → String → Bool → List AdminTotpRecord → List AdminTotpRecord
unfolding get_totp
upsert_totp id username secret enabled records =
    if is_none (get_totp username records)
    then records
      ++ record { id = id; username = username; totp_secret = secret; enabled = enabled } ∷ []
    else update_totp username
        (λ (r : AdminTotpRecord). record r { totp_secret = secret; enabled = enabled }) records

-- `enable`
unfoldable pub enable_totp : String → List AdminTotpRecord → List AdminTotpRecord
enable_totp username records =
    update_totp username (λ (r : AdminTotpRecord). record r { enabled = true }) records

abbrev pub bcrypt_max_bytes : ℕ
bcrypt_max_bytes = 72

-- `_truncate`; cutting the bytes and ignoring a part of a character keeps the characters that fit.
unfoldable pub truncate : String → String
truncate password = utf8_prefix bcrypt_max_bytes password

-- bcrypt: `pwd_context.hash`, with the salt that it draws, and `pwd_context.verify`.
pub record Passwords : Type 0 where
  pub hash : String → String
  pub verify : String → String → Bool

module _ (passwords : Passwords) where
  -- `hash_password`
  unfoldable pub hash_password : String → String
  unfolding truncate
  hash_password password = passwords.hash (truncate password)

  -- `verify_password`
  unfoldable pub verify_password : String → String → Bool
  unfolding truncate
  verify_password plain hashed = passwords.verify (truncate plain) hashed

  -- `authenticate` for the row that was read.
  unfoldable pub check_user : String → Option AdminUser → Option AdminUser
  unfolding verify_password
  check_user password none = none
  check_user password (some user) =
      if not user.is_active
      then none
      else if not (verify_password password user.password_hash)
      then none
      else some user

  -- `authenticate`
  unfoldable pub authenticate : String → String → List AdminUser → Option AdminUser
  unfolding get_by_username check_user
  authenticate username password users = check_user password (get_by_username username users)
