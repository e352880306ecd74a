-- ===== src/Handlers/Auth/Service.antt =====
-- The AuthClient interface of internal/handlers/auth.go, with the request bodies of the handlers in
-- auth.go and auth_admin.go.
use swayrider_api.Base.{String, Bool, Option, List, ◌⊎◌, ℤ}
use swayrider_api.Http.{Request}
use swayrider_api.Grpc.{GoError}
use swayrider_api.Handlers.Stream.{Decoded}

pub record LoginRequest : Type 0 where
  pub email : String
  pub password : String
  pub remember_me : Bool

pub record RegisterRequest : Type 0 where
  pub email : String
  pub password : String
  pub verification_url : String

pub record RefreshRequest : Type 0 where
  pub refresh_token : String
  pub remember_me : Bool

pub record PasswordResetRequest : Type 0 where
  pub email : String
  pub reset_url : String

pub record MfaResetRequest : Type 0 where
  pub email : String
  pub password : String
  pub backup_code : String
  pub mfa_reset_url : String

pub record ResetPasswordRequest : Type 0 where
  pub user_id : String
  pub token : String
  pub new_password : String

pub record VerifyEmailRequest : Type 0 where
  pub email : String
  pub verification_url : String

pub record ChangePasswordRequest : Type 0 where
  pub old_password : String
  pub new_password : String

pub record MfaVerifyRequest : Type 0 where
  pub mfa_token : String
  pub code : String
  pub remember_me : Bool

pub record CreateAdminRequest : Type 0 where
  pub email : String
  pub password : String

pub record AccountTypeRequest : Type 0 where
  pub user_id : String
  pub account_type : String

pub record WhoIsRequest : Type 0 where
  pub email : String
  pub user_id : String

pub record ServiceClientRequest : Type 0 where
  pub name : String
  pub description : String
  pub scopes : List String

-- json.Decoder.Decode of a request's body, into the struct of each handler. A struct with one field
-- is that field.
pub record Bodies : Type 0 where
  pub login : Request → Decoded LoginRequest
  pub register : Request → Decoded RegisterRequest
  pub refresh : Request → Decoded RefreshRequest
  pub logout : Request → Decoded String
  pub password_reset : Request → Decoded PasswordResetRequest
  pub mfa_reset : Request → Decoded MfaResetRequest
  pub reset_password : Request → Decoded ResetPasswordRequest
  pub verify_email : Request → Decoded VerifyEmailRequest
  pub change_password : Request → Decoded ChangePasswordRequest
  pub password : Request → Decoded String
  pub code : Request → Decoded String
  pub mfa_verify : Request → Decoded MfaVerifyRequest
  pub create_admin : Request → Decoded CreateAdminRequest
  pub account_type : Request → Decoded AccountTypeRequest
  pub who_is : Request → Decoded WhoIsRequest
  pub email : Request → Decoded String
  pub service_client : Request → Decoded ServiceClientRequest
  pub client_id : Request → Decoded String

pub record LoginResult : Type 0 where
  pub access_token : String
  pub refresh_token : String
  pub mfa_required : Bool
  pub mfa_token : String

-- whoAmIUser
pub record User : Type 0 where
  pub user_id : String
  pub email : String
  pub is_verified : Bool
  pub is_admin : Bool
  pub account_type : String

-- authclient.WhoIsOneOf
pub data WhoIsOneOf : Type 0 where
  by_email : String → WhoIsOneOf
  by_user_id : String → WhoIsOneOf

pub record MfaSetup : Type 0 where
  pub secret : String
  pub otpauth_url : String
  pub qr_png_base64 : String

-- inviteResult; the time is its text
pub record Invite : Type 0 where
  pub id : String
  pub email : String
  pub created_at : String
  pub registered : Bool

-- serviceClientResult
pub record ServiceClient : Type 0 where
  pub client_id : String
  pub name : String
  pub description : String
  pub scopes : List String

-- AuthClient, over the state S of authservice. The last texts of login, refresh and verify_mfa are
-- the IP of ClientInfo.
pub record AuthClient (S : Type 0) : Type 0 where
  pub login : String → String → Bool → String → S → (GoError ⊎ LoginResult) × S
  pub register : String → String → String → S → (GoError ⊎ (String × String)) × S
  pub refresh : String → Bool → String → S → (GoError ⊎ (String × String)) × S
  pub logout : String → S → (GoError ⊎ Unit {0}) × S
  pub request_password_reset : String → String → S → (GoError ⊎ Unit {0}) × S
  pub reset_password : String → String → String → S → (GoError ⊎ String) × S
  pub request_mfa_reset : String → String → String → String → S → (GoError ⊎ Unit {0}) × S
  pub verify_email : String → String → S → (GoError ⊎ Unit {0}) × S
  pub change_password : String → String → String → S → (GoError ⊎ String) × S
  pub check_password_strength : String → S → (GoError ⊎ (Bool × String)) × S
  pub who_am_i : String → S → (GoError ⊎ User) × S
  pub setup_mfa : String → S → (GoError ⊎ MfaSetup) × S
  pub enable_mfa : String → String → S → (GoError ⊎ List String) × S
  pub disable_mfa : String → String → S → (GoError ⊎ Unit {0}) × S
  pub get_mfa_status : String → S → (GoError ⊎ Bool) × S
  pub verify_mfa : String → String → Bool → String → S → (GoError ⊎ (String × String)) × S
  pub generate_backup_codes : String → String → S → (GoError ⊎ List String) × S
  pub create_admin : String → String → String → S → (GoError ⊎ (String × String)) × S
  pub change_account_type : String → String → String → S → (GoError ⊎ String) × S
  pub who_is : String → WhoIsOneOf → S → (GoError ⊎ User) × S
  pub create_service_client :
      String → String → String → List String → S → (GoError ⊎ (String × String)) × S
  pub delete_service_client : String → String → S → (GoError ⊎ String) × S
  pub list_service_clients : String → ℤ → ℤ → S → (GoError ⊎ (List ServiceClient × ℤ)) × S
  pub invite_user : String → String → S → (GoError ⊎ String) × S
  pub revoke_invite : String → String → S → (GoError ⊎ String) × S
  pub list_invites : String → ℤ → ℤ → Option Bool → S → (GoError ⊎ (List Invite × ℤ)) × S
