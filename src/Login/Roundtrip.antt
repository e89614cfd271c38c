-- ===== src/Login/Roundtrip.antt =====
-- An account that `create_admin_user` of api/routers/auth.py made, at the login.
use super_agent_platform.Login.Bearer.{Faithful}
use super_agent_platform.Login.Access.{
  full_access, full_payload, expected_access, full_token-access,
}
use super_agent_platform.Login.Attempts.{check_lockout}
use super_agent_platform.Login.Users.{add_user, create_admin_user}
use super_agent_platform.Login.Tokens.{Response, create_access_token, http, returned, refused}
use super_agent_platform.Base.{
  strip, lookup, ℕ, String, ◌≡◌, refl, sym, ap, ◌∙◌, inl, inr, true, false, none, some, List, [],
  ◌∷◌, ◌++◌, arith, eq_refl, leb, get_or, Option-cases, length, Fields,
}
use super_agent_platform.Login.Accounts.{
  AdminUser, get_by_username, create, hash_password, get_totp, truncate, verify_password,
  check_user, authenticate,
}
use super_agent_platform.Login.Router.{
  World, Context, drop_expired, validate_username, validate_password, AdminUserResponse,
  to_admin_user_response, Peer, subject, has_second_factor, issue_token, access_token, pass_login,
  check_credentials,
}

get_by_username-append :
    (users : List AdminUser) (user : AdminUser)
    → get_by_username user.username users ≡ none
    → get_by_username user.username (users ++ user ∷ []) ≡ some user
unfolding get_by_username
get_by_username-append [] user h = ground (arith, eq_refl user.username)
get_by_username-append (u ∷ users) user h = ground (arith, get_by_username-append users user)

module _ (c : Context) where
  -- The row of a new account.
  abbrev new_user : String → String → AdminUser
  new_user username password = record {
    id = c.drawn_id;
    username = username;
    password_hash = hash_password c.passwords password;
    is_active = true;
    created_at = c.now;
    last_login_at = none;
  }

  -- The state has the new account, whose name was free.
  abbrev Created : String → String → World → World → Type 0
  Created username password w w' =
      (get_by_username username w.users ≡ none)
      × (w' ≡ record w { users = w.users ++ new_user username password ∷ [] })

  add_user-free :
      (username password : String) (w : World)
      → get_by_username username w.users ≡ none
      → add_user c username password w ≡ (
        returned (to_admin_user_response (new_user username password)),
        record w { users = w.users ++ new_user username password ∷ [] },
      )
  unfolding add_user create to_admin_user_response
  add_user-free username password w free = rw (free, create) refl

  add_user-taken :
      (username password : String) (w : World) {user : AdminUser}
      → get_by_username username w.users ≡ some user
      → add_user c username password w ≡ (refused (http 409 "username_ya_existe"), w)
  unfolding add_user
  add_user-taken username password w taken = rw taken refl

  add_user-Created :
      (username password : String) (w : World) {response : AdminUserResponse} {w' : World}
      → add_user c username password w ≡ (returned response, w')
      → Created username password w w'
  add_user-Created username password w {response} {w'} h =
      elim (Option-cases (get_by_username username w.users)) [
        | inl free ↦ (
          free,
          ap (λ (r : Response AdminUserResponse × World). r.1)
              (sym h ∙ add_user-free username password w free),
        )
        | inr (user, taken) ↦
            let wrong = sym (add_user-taken username password w taken) ∙ h in
            absurd (ground (arith, wrong))
      ]

  create_admin_user-Created :
      (current_user : Fields) (raw_username password : String) (w : World)
      {response : AdminUserResponse} {w' : World}
      → create_admin_user c current_user raw_username password w ≡ (returned response, w')
      → Created (strip raw_username) password w w'
  unfolding create_admin_user validate_username validate_password
  create_admin_user-Created current_user raw_username password w {response} {w'} h =
      add_user-Created (strip raw_username) password w {response = response} {w' = w'}
        (ground (arith, h))

  authenticate-new_user :
      (username password : String) (users : List AdminUser)
      → ((p : String) → c.passwords.verify p (c.passwords.hash p) ≡ true)
      → get_by_username username users ≡ some (new_user username password)
      → authenticate c.passwords username password users ≡ some (new_user username password)
  unfolding authenticate check_user verify_password hash_password
  authenticate-new_user username password users verifies found =
      rw (found, verifies (truncate password)) refl

  -- The login of an account that was created.
  create_admin_user-login :
      (current_user : Fields) (raw_username password : String) (w : World)
      {response : AdminUserResponse} {w' : World} (peer : Peer) (later : ℕ)
      → ((p : String) → c.passwords.verify p (c.passwords.hash p) ≡ true)
      → create_admin_user c current_user raw_username password w ≡ (returned response, w')
      → check_lockout later (get_or peer.host "unknown") w'.attempts ≡ false
      → leb 5 (
          length (
            drop_expired later (get_or (lookup (get_or peer.host "unknown") w'.attempts_by_ip) [])))
        ≡ false
      → has_second_factor c (get_totp (strip raw_username) w'.totp) ≡ false
      → (issue_token (record c { now = later }) raw_username password peer w').0
        ≡ returned
            (access_token (create_access_token c.jwt later (subject c (strip raw_username)) none))
  unfolding issue_token check_credentials pass_login
  create_admin_user-login current_user raw_username password w {w' = w'} peer later verifies h
        open_address few single =
      let username = strip raw_username in
      let (free, made) = create_admin_user-Created current_user raw_username password w h in
      let entered : authenticate c.passwords username password w'.users
          ≡ some (new_user username password) =
        authenticate-new_user username password w'.users verifies (
          ap (λ (v : World). get_by_username username v.users) made
          ∙ get_by_username-append w.users (new_user username password) free) in
      ground (arith, open_address, few, entered, single)

  -- An account that was created lets its name and password in, from an address that is not limited:
  -- where a name has no second factor, the login returns a token, and a request that asks for a full
  -- login lets the token in, by the name of the account, until it has expired; a token is read by
  -- the claims that it encodes.
  pub create_admin_user-issue_token :
      (current_user : Fields) (raw_username password : String) (w : World)
      {response : AdminUserResponse} {w' : World} (peer : Peer) (later at : ℕ)
      → ((p : String) → c.passwords.verify p (c.passwords.hash p) ≡ true)
      → Faithful c.jwt (full_payload (record c { now = later }) (strip raw_username))
      → create_admin_user c current_user raw_username password w ≡ (returned response, w')
      → check_lockout later (get_or peer.host "unknown") w'.attempts ≡ false
      → leb 5 (
          length (
            drop_expired later (get_or (lookup (get_or peer.host "unknown") w'.attempts_by_ip) [])))
        ≡ false
      → has_second_factor c (get_totp (strip raw_username) w'.totp) ≡ false
      → (token : String) × ((issue_token (record c { now = later }) raw_username password peer w').0
          ≡ returned (access_token token))
        × (full_access c.jwt at token
            ≡ expected_access (record c { now = later }) (strip raw_username) false at)
  create_admin_user-issue_token current_user raw_username password w peer later at verifies faithful
        h open_address few single =
      (
        create_access_token c.jwt later (subject c (strip raw_username)) none,
        create_admin_user-login current_user raw_username password w peer later verifies h
            open_address few single,
        full_token-access (record c { now = later }) (strip raw_username) at faithful,
      )
