-- ===== src/Handlers/Auth/Account.antt =====
-- internal/handlers/auth.go: the handlers of accounts, passwords and MFA, and those that answer
-- without authservice.
use swayrider_api.Base.{String, Option, none, some, List, [], ◌∷◌}
use swayrider_api.Http.{Handler}
use swayrider_api.Handlers.Answers.{
  Env, Json, string, boolean, null, strings, Object, no_content, no_jwt, write_json, answer,
  with_token, with_body,
}
use swayrider_api.Handlers.Auth.Service.{AuthClient, Bodies, User}

abbrev pub message_object : String → Object
message_object message = ("message", string message) ∷ []

abbrev pub created_object : String × String → Object
created_object (user_id, message) = ("user_id", string user_id) ∷ ("message", string message) ∷ []

abbrev pub codes_object : List String → Object
codes_object backup_codes = ("backup_codes", strings backup_codes) ∷ []

unfoldable pub user_object : User → Object
user_object user =
    ("user_id", string user.user_id)
    ∷ ("email", string user.email)
    ∷ ("is_verified", boolean user.is_verified)
    ∷ ("is_admin", boolean user.is_admin)
    ∷ ("account_type", string user.account_type)
    ∷ []

-- A pointer's value, or null.
abbrev pub or_null : {A : Type 0} → (A → Json) → Option A → Json
or_null f none = null
or_null f (some a) = f a

module _ (env : Env) where
  module _ {S : Type 0} where
    -- AuthHandler.Me
    unfoldable pub me : Handler S
    me r s = elim r.ctx.claims [
      | none ↦ (no_jwt, s)
      | some claims ↦ (
        write_json env 200
            (("user_id", string claims.subject)
              ∷ ("email", or_null string claims.email)
              ∷ ("email_verified", or_null boolean claims.email_verified)
              ∷ [])
            [],
        s,
      )
    ]

    -- AuthHandler.PublicKeys; `keys` is KeysProvider.Keys
    unfoldable pub public_keys : List String → Handler S
    public_keys keys r s = (write_json env 200 (("keys", strings keys) ∷ []) [], s)

  module _ {S : Type 0} (bodies : Bodies) (client : AuthClient S) where
    unfoldable pub register : Handler S
    register = with_body bodies.register λ q r s.
        answer env (client.register q.email q.password q.verification_url s)
          (λ a. write_json env 200 (created_object a) [])

    unfoldable pub request_password_reset : Handler S
    request_password_reset = with_body bodies.password_reset λ q r s.
        answer env (client.request_password_reset q.email q.reset_url s) (λ u. no_content [])

    unfoldable pub request_mfa_reset : Handler S
    request_mfa_reset = with_body bodies.mfa_reset λ q r s.
        answer env (client.request_mfa_reset q.email q.password q.backup_code q.mfa_reset_url s)
          (λ u. no_content [])

    unfoldable pub reset_password : Handler S
    reset_password = with_body bodies.reset_password λ q r s.
        answer env (client.reset_password q.user_id q.token q.new_password s)
          (λ m. write_json env 200 (message_object m) [])

    unfoldable pub verify_email : Handler S
    verify_email =
        with_body bodies.verify_email λ q r s.
          answer env (client.verify_email q.email q.verification_url s) (λ u. no_content [])

    unfoldable pub change_password : Handler S
    change_password = with_token λ token. with_body bodies.change_password λ q r s.
        answer env (client.change_password token q.old_password q.new_password s)
          (λ m. write_json env 200 (message_object m) [])

    unfoldable pub check_password_strength : Handler S
    check_password_strength = with_body bodies.password λ password r s.
        answer env (client.check_password_strength password s)
          (λ a. write_json env 200 (("is_strong", boolean a.0) ∷ ("message", string a.1) ∷ []) [])

    unfoldable pub mfa_setup : Handler S
    mfa_setup = with_token λ token r s. answer env (client.setup_mfa token s) λ a.
        write_json env 200
          (("secret", string a.secret)
            ∷ ("otpauth_url", string a.otpauth_url)
            ∷ ("qr_png_base64", string a.qr_png_base64)
            ∷ [])
          []

    unfoldable pub mfa_enable : Handler S
    mfa_enable = with_token λ token. with_body bodies.code λ code r s.
        answer env (client.enable_mfa token code s) (λ a. write_json env 200 (codes_object a) [])

    unfoldable pub mfa_disable : Handler S
    mfa_disable = with_token λ token.
        with_body bodies.password
          λ password r s. answer env (client.disable_mfa token password s) (λ u. no_content [])

    unfoldable pub mfa_status : Handler S
    mfa_status = with_token λ token r s.
        answer env (client.get_mfa_status token s)
          (λ enabled. write_json env 200 (("enabled", boolean enabled) ∷ []) [])

    unfoldable pub mfa_backup_codes : Handler S
    mfa_backup_codes = with_token λ token. with_body bodies.password λ password r s.
        answer env (client.generate_backup_codes token password s)
          (λ a. write_json env 200 (codes_object a) [])

    unfoldable pub who_am_i : Handler S
    who_am_i = with_token λ token r s.
        answer env (client.who_am_i token s) (λ user. write_json env 200 (user_object user) [])
