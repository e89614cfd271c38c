-- ===== src/Login/Admission.antt =====
-- Who is let in by `issue_token` of api/routers/auth.py.
use super_agent_platform.Login.Bearer.{Faithful}
use super_agent_platform.Login.Access.{
  full_access, token_of, full_payload, half_payload, expected_access, login-access,
}
use super_agent_platform.Base.{
  strip, lookup, insert, ℕ, String, ◌≡◌, refl, ap, ◌∙◌, subst, true, false, Option, none, some,
  List, [], arith, if◌then◌else◌, get_or, some_injective,
}
use super_agent_platform.Login.Attempts.{check_lockout}
use super_agent_platform.Login.Accounts.{
  AdminUser, get_by_username, get_totp, verify_password, check_user, authenticate,
}
use super_agent_platform.Login.Tokens.{create_access_token, returned}
use super_agent_platform.Login.Router.{
  World, Context, drop_expired, Login, Peer, fail_login, subject, pre_auth_subject,
  has_second_factor, pass_login, check_credentials, issue_token, requires_2fa, access_token,
}

-- The users and the second factor that let a name and a password through.
pub record Admitted (c : Context) (username password : String) (peer : Peer) (w : World)
    : Type 0 where
  pub user : AdminUser
  pub not_locked : check_lockout c.now (get_or peer.host "unknown") w.attempts ≡ false
  pub known : get_by_username username w.users ≡ some user
  pub active : user.is_active ≡ true
  pub right_password : verify_password c.passwords password user.password_hash ≡ true

module _ (c : Context) where
  check_user_lem :
      (password : String) (o : Option AdminUser) {user : AdminUser}
      → check_user c.passwords password o ≡ some user
      → (o ≡ some user)
        × (user.is_active ≡ true)
        × (verify_password c.passwords password user.password_hash ≡ true)
  unfolding check_user
  check_user_lem password none h = absurd (ground arith)
  check_user_lem password (some u) {user} h =
      let e : u ≡ user = some_injective (ground (arith, h)) in
      let good : (u.is_active ≡ true)
          × (verify_password c.passwords password u.password_hash ≡ true) =
        (ground arith, ground arith) in
      (
        ap some e,
        subst (λ (v : AdminUser). v.is_active ≡ true) e good.0,
        subst (λ (v : AdminUser). verify_password c.passwords password v.password_hash ≡ true) e
            good.1,
      )

  -- What a login with the right password returns.
  unfoldable pub login_of : String → World → Login
  login_of username w =
      if has_second_factor c (get_totp username w.totp)
      then requires_2fa (create_access_token c.jwt c.now (pre_auth_subject c username) (some 5))
      else access_token (create_access_token c.jwt c.now (subject c username) none)

  credentials_lem :
      (peer : Peer) (username : String) (attempts : List ℕ) (o : Option AdminUser) (w : World)
      {login : Login}
      → (check_credentials c peer username attempts o w).0 ≡ returned login
      → (user : AdminUser) × (o ≡ some user) × (login ≡ login_of username w)
  unfolding check_credentials fail_login pass_login login_of
  credentials_lem peer username attempts none w h = absurd (ground arith)
  credentials_lem peer username attempts (some user) w {login} h = (user, refl, ground arith)

  -- Who is let in, and by which token.
  pub issue_token_lem :
      (raw_username password : String) (peer : Peer) (w : World) {login : Login}
      → (issue_token c raw_username password peer w).0 ≡ returned login
      → Admitted c (strip raw_username) password peer w × (login ≡ login_of (strip raw_username) w)
  unfolding issue_token login_of authenticate
  issue_token_lem raw_username password peer w {login} h =
      let username = strip raw_username in
      let host = get_or peer.host "unknown" in
      let attempts = drop_expired c.now (get_or (lookup host w.attempts_by_ip) []) in
      let w' : World = record w { attempts_by_ip = insert host attempts w.attempts_by_ip } in
      let o = authenticate c.passwords username password w.users in
      let passed : (check_credentials c peer username attempts o w').0 ≡ returned login =
        ground (arith, h) in
      let (user, found, result) = credentials_lem peer username attempts o w' passed in
      let (known, active, right) =
        check_user_lem password (get_by_username username w.users) found in
      (
        record {
          user = user;
          not_locked = ground (arith, h);
          known = known;
          active = active;
          right_password = right;
        },
        result,
      )

  -- A login that returns a token was made by an active user with the right password, from an address
  -- that is not locked out. At a request that asks for a full login, the token of a user with a
  -- second factor is refused at any time, and that of a user without one lets the user in by name
  -- until it has expired; a token is read by the claims that it encodes.
  pub issue_token-Admitted :
      (raw_username password : String) (peer : Peer) (w : World) (later : ℕ) {login : Login}
      → Faithful c.jwt (full_payload c (strip raw_username))
      → Faithful c.jwt (half_payload c (strip raw_username))
      → (issue_token c raw_username password peer w).0 ≡ returned login
      → Admitted c (strip raw_username) password peer w
        × (full_access c.jwt later (token_of login)
            ≡ expected_access c
                (strip raw_username)
                (has_second_factor c (get_totp (strip raw_username) w.totp))
                later)
  unfolding login_of
  issue_token-Admitted raw_username password peer w later full half h =
      let username = strip raw_username in
      let (admitted, result) = issue_token_lem raw_username password peer w h in
      (
        admitted,
        ap (λ l. full_access c.jwt later (token_of l)) result
            ∙ login-access c username (has_second_factor c (get_totp username w.totp)) later full
                half,
      )
