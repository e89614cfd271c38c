-- ===== src/Login/PreAuth.antt =====
-- What the token of a user with a second factor is good for: `issue_token` and the requests of
-- api/routers/auth.py that are given the token.
use Prim.Native.Char.{code}
use super_agent_platform.Login.TwoFactor.{
  given_response, check_code, check_second_factor, complete_2fa_login,
}
use super_agent_platform.Login.Users.{change_password, update_admin_user_password}
use super_agent_platform.Base.{
  strip, get, put, ℕ, ◌+◌, ◌*◌, ◌/◌, String, ◌≡◌, refl, ap, ◌∙◌, subst, Bool, true, false, not,
  none, some, arith, ltb, ◌==◌, if◌then◌else◌, chars, Fields, ℕ_eq, String_eq,
}
use super_agent_platform.Login.Attempts.{minute}
use super_agent_platform.Login.Accounts.{
  AdminUser, AdminTotpRecord, get_by_id, update_password, get_totp, hash_password,
}
use super_agent_platform.Login.Tokens.{
  Response, and_then, claim_text, with_expiry, create_access_token, verify_token, get_current_user,
  assert_full_auth, http, returned, refused,
}
use super_agent_platform.Login.Router.{
  World, Context, validate_password, Peer, subject, pre_auth_subject, issue_token, requires_2fa,
}
use super_agent_platform.Login.Bearer.{
  Faithful, bearer, verify_token-encode, get_current_user-bearer,
}
use super_agent_platform.Login.Admission.{login_of, issue_token_lem}

module _ (c : Context) where
  -- The token of a user with a second factor.
  pre_auth_token :
      (raw_username password : String) (peer : Peer) (w : World) {token : String}
      → (issue_token c raw_username password peer w).0 ≡ returned (requires_2fa token)
      → create_access_token c.jwt c.now (pre_auth_subject c (strip raw_username)) (some 5) ≡ token
  unfolding login_of
  pre_auth_token raw_username password peer w {token} h =
      ground (arith, (issue_token_lem c raw_username password peer w h).1)

  -- The second at which the token of a user with a second factor expires.
  abbrev pub pre_auth_exp : ℕ
  pre_auth_exp = (c.now + 5 * minute) / 1000000

  -- The claims of the token of a user with a second factor.
  unfoldable pub pre_auth_payload : String → Fields
  unfolding put
  pre_auth_payload raw_username =
      with_expiry c.jwt c.now (pre_auth_subject c (strip raw_username)) 5

  module _ (raw_username : String) (faithful : Faithful c.jwt (pre_auth_payload raw_username)) where
    -- What the token of a user with a second factor is read as.
    abbrev pub read_pre_auth : ℕ → Response Fields
    read_pre_auth later =
        if ltb pre_auth_exp (later / 1000000)
        then refused (http 401 "token_expired")
        else returned (pre_auth_payload raw_username)

    pre_auth_claims :
        (password : String) (peer : Peer) (w : World) {token : String} (later : ℕ)
        → (issue_token c raw_username password peer w).0 ≡ returned (requires_2fa token)
        → (verify_token c.jwt later token ≡ read_pre_auth later)
          × (get_current_user c.jwt later (bearer token) ≡ read_pre_auth later)
    unfolding create_access_token get put pre_auth_payload
    pre_auth_claims password peer w {token} later h =
        let payload = pre_auth_payload raw_username in
        let read = verify_token-encode c.jwt payload faithful later pre_auth_exp refl in
        subst
          (λ t.
            (verify_token c.jwt later t ≡ read_pre_auth later)
            × (get_current_user c.jwt later (bearer t) ≡ read_pre_auth later))
          (pre_auth_token raw_username password peer w h)
          (read, get_current_user-bearer c.jwt payload faithful later ∙ read)

    -- The token that a user with a second factor is given for a right password is refused, at any
    -- time, by a request that asks for a full login: as invalid for five minutes, then as expired.
    pub pre_auth-refused :
        (password : String) (peer : Peer) (w : World) {token : String} (later : ℕ)
        → (issue_token c raw_username password peer w).0 ≡ returned (requires_2fa token)
        → and_then (get_current_user c.jwt later (bearer token)) (assert_full_auth c.jwt)
          ≡ refused (
              http 401
                (if ltb pre_auth_exp (later / 1000000) then "token_expired" else "invalid_token"))
    unfolding assert_full_auth claim_text get put pre_auth_payload
    pre_auth-refused password peer w {token} later h =
        ap (λ r. and_then r (assert_full_auth c.jwt)) (pre_auth_claims password peer w later h).1
        ∙ go (ltb pre_auth_exp (later / 1000000))
      where
        go :
            (b : Bool)
            → and_then
                (if b
                  then refused (http 401 "token_expired")
                  else returned (pre_auth_payload raw_username))
                (assert_full_auth c.jwt)
              ≡ refused (http 401 (if b then "token_expired" else "invalid_token"))
        go true = refl
        go false = refl

    -- The same token is enough to set the password of any user for five minutes: the request that
    -- does so does not ask for a full login.
    pub pre_auth-update_password :
        (password : String) (peer : Peer) (w : World) {token : String} (later : Context)
        (w' : World) (user_id : ℕ) (new_password : String) {target : AdminUser}
        → (issue_token c raw_username password peer w).0 ≡ returned (requires_2fa token)
        → ltb pre_auth_exp (later.now / 1000000) ≡ false
        → get_by_id user_id w'.users ≡ some target
        → ltb (chars new_password) 8 ≡ false
        → given_response
            (get_current_user c.jwt later.now (bearer token))
            w'
            (λ current_user. update_admin_user_password later current_user user_id new_password w')
          ≡ (
            returned "Contraseña actualizada",
            record w' {
              users = update_password user_id (hash_password later.passwords new_password) w'.users;
            },
          )
    unfolding update_admin_user_password change_password validate_password
    pre_auth-update_password password peer w later w' user_id new_password h valid found long =
        let update = λ (current_user : Fields).
          update_admin_user_password later current_user user_id new_password w' in
        let payload = pre_auth_payload raw_username in
        ap (λ r. given_response r w' update) (pre_auth_claims password peer w later.now h).1
        ∙ ap
            (λ b.
              given_response (if b then refused (http 401 "token_expired") else returned payload) w'
                update)
            valid
        ∙ ap (λ o. change_password later user_id new_password o w') found
        ∙ ap
            (λ b.
              given_response
                (if b
                  then refused (http 422 "password_minimo_8_caracteres")
                  else returned new_password)
                w'
                (λ p. (
                  returned "Contraseña actualizada",
                  record w' {
                    users = update_password user_id (hash_password later.passwords p) w'.users;
                  },
                )))
            long

    -- With the token that a user was given for a right password, the login is completed within five
    -- minutes exactly by a code that the second factor of the user accepts at the time.
    pub pre_auth-complete_2fa_login :
        (password : String) (peer : Peer) (w : World) {token : String} (later : ℕ) (w' : World)
        (code : String) (factor : AdminTotpRecord)
        → (issue_token c raw_username password peer w).0 ≡ returned (requires_2fa token)
        → ltb pre_auth_exp (later / 1000000) ≡ false
        → (strip raw_username == "") ≡ false
        → get_totp (strip raw_username) w'.totp ≡ some factor
        → factor.enabled ≡ true
        → complete_2fa_login (record c { now = later }) token code w' ≡ (
            if c.verify_code later factor.totp_secret code
            then returned (create_access_token c.jwt later (subject c (strip raw_username)) none)
            else refused (http 400 "Código inválido"))
    unfolding complete_2fa_login check_second_factor claim_text check_code get put pre_auth_payload
    pre_auth-complete_2fa_login password peer w later w' code factor h valid named found enabled =
        let c' : Context = record c { now = later } in
        let username = strip raw_username in
        let payload = pre_auth_payload raw_username in
        ap (λ r. and_then r (check_second_factor c' code w'))
          (pre_auth_claims password peer w later h).0
        ∙ ap
            (λ b.
              and_then (if b then refused (http 401 "token_expired") else returned payload)
                (check_second_factor c' code w'))
            valid
        ∙ ap
            (λ b.
              let u = if b then "" else username in
              if u == ""
              then refused (http 401 "Token inválido")
              else check_code c' u code (get_totp u w'.totp))
            named
        ∙ ap
            (λ b.
              if b
              then refused (http 401 "Token inválido")
              else check_code c' username code (get_totp username w'.totp))
            named
        ∙ ap (check_code c' username code) found
        ∙ ap
            (λ b.
              if not b
              then refused (http 400 "2FA no configurado")
              else if not (c.verify_code later factor.totp_secret code)
              then refused (http 400 "Código inválido")
              else returned (create_access_token c.jwt later (subject c username) none))
            enabled
        ∙ by_code (c.verify_code later factor.totp_secret code)
      where
        by_code :
            (b : Bool)
            → (if not b
                then refused (http 400 "Código inválido")
                else returned
                    (create_access_token c.jwt later (subject c (strip raw_username)) none))
              ≡ (if b
                  then returned
                      (create_access_token c.jwt later (subject c (strip raw_username)) none)
                  else refused (http 400 "Código inválido"))
        by_code true = refl
        by_code false = refl
