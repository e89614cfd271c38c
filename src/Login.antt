-- ===== src/Login.antt =====
-- The login of administrators: the accounts, the tokens, the limits on failed attempts and the
-- requests of api/routers/auth.py.
pub mod Attempts
pub mod Lockout
pub mod Accounts
pub mod Tokens
pub mod Router
pub mod TwoFactor
pub mod Users
pub mod Bearer
pub mod Access
pub mod Admission
pub mod PreAuth
pub mod Roundtrip
