-- ===== src/Handlers/Auth.antt =====
-- internal/handlers/auth.go and auth_admin.go: the handlers over authservice, which is the parameter
-- `client`. Their log lines are left out.
pub mod Service
pub mod Session
pub mod Account
pub mod Admin
pub mod Tokens
pub mod Failing
