-- ===== src/Login/Users.antt =====
-- The management of the administrators in api/routers/auth.py. `current_user` is what
-- `get_current_user` gave.
use super_agent_platform.Base.{
  ℕ, String, Bool, false, not, ◌&&◌, Option, none, some, List, map, ◌==◌, if◌then◌else◌, is_none,
  Fields, ℕ_eq, String_eq,
}
use super_agent_platform.Login.Accounts.{
  AdminUser, get_by_id, get_by_username, create, list_all, set_active, update_password,
  hash_password,
}
use super_agent_platform.Login.Tokens.{Refusal, Response, assert_full_auth, http, returned, refused}
use super_agent_platform.Login.Router.{
  World, Context, validate_username, validate_password, AdminUserResponse, to_admin_user_response,
}
use super_agent_platform.Login.TwoFactor.{given_response}

abbrev not_found : Refusal
not_found = http 404 "usuario_no_encontrado"

module _ (c : Context) where
  -- `list_admin_users`
  unfoldable pub list_admin_users : Fields → World → Response (List AdminUserResponse)
  unfolding list_all to_admin_user_response
  list_admin_users current_user w =
      returned (map to_admin_user_response (list_all c.before w.users))

  -- `create_admin_user` for a name and a password that are valid.
  unfoldable pub add_user : String → String → World → Response AdminUserResponse × World
  unfolding get_by_username hash_password create to_admin_user_response
  add_user username password w =
      if not (is_none (get_by_username username w.users))
      then (refused (http 409 "username_ya_existe"), w)
      else elim (create c.drawn_id c.now username (hash_password c.passwords password) w.users) [
        | none ↦ (refused (http 409 "username_ya_existe"), w)
        | some (user, users) ↦ (returned (to_admin_user_response user), record w { users = users })
      ]

  -- `create_admin_user`
  unfoldable pub create_admin_user :
      Fields → String → String → World → Response AdminUserResponse × World
  unfolding validate_username validate_password add_user
  create_admin_user current_user raw_username raw_password w =
      given_response (validate_username raw_username) w (λ username.
        given_response (validate_password raw_password) w
          (λ password. add_user username password w))

  -- The answer of a change, for the row that is read again.
  unfoldable pub refreshed : Option AdminUser → Response AdminUserResponse
  unfolding to_admin_user_response
  refreshed none = refused not_found
  refreshed (some user) = returned (to_admin_user_response user)

  -- `set_admin_user_status` for the row that was read.
  unfoldable pub change_status :
      String → ℕ → Bool → Option AdminUser → World → Response AdminUserResponse × World
  unfolding set_active get_by_id refreshed
  change_status requester_username user_id is_active none w = (refused not_found, w)
  change_status requester_username user_id is_active (some target_user) w =
      let w' : World = record w { users = set_active user_id is_active w.users } in
      if target_user.username == requester_username && not is_active
      then (refused (http 400 "no_puedes_desactivarte_a_ti_mismo"), w)
      else (refreshed (get_by_id user_id w'.users), w')

  -- `set_admin_user_status`
  unfoldable pub set_admin_user_status :
      Fields → ℕ → Bool → World → Response AdminUserResponse × World
  unfolding assert_full_auth get_by_id change_status
  set_admin_user_status current_user user_id is_active w =
      given_response (assert_full_auth c.jwt current_user) w (λ requester_username.
        change_status requester_username user_id is_active (get_by_id user_id w.users) w)

  -- `deactivate_admin_user`, whose steps are those of a status that is set to false.
  unfoldable pub deactivate_admin_user : Fields → ℕ → World → Response AdminUserResponse × World
  unfolding assert_full_auth get_by_id change_status
  deactivate_admin_user current_user user_id w =
      given_response (assert_full_auth c.jwt current_user) w (λ requester_username.
        change_status requester_username user_id false (get_by_id user_id w.users) w)

  -- `update_admin_user_password` for the row that was read.
  unfoldable pub change_password : ℕ → String → Option AdminUser → World → Response String × World
  unfolding validate_password hash_password update_password
  change_password user_id raw_password none w = (refused not_found, w)
  change_password user_id raw_password (some target_user) w =
      given_response (validate_password raw_password) w (λ new_password. (
        returned "Contraseña actualizada",
        record w {
          users = update_password user_id (hash_password c.passwords new_password) w.users;
        },
      ))

  -- `update_admin_user_password`
  unfoldable pub update_admin_user_password : Fields → ℕ → String → World → Response String × World
  unfolding get_by_id change_password
  update_admin_user_password current_user user_id new_password w =
      change_password user_id new_password (get_by_id user_id w.users) w
