-- ===== src/Handlers/Auth/Failing.antt =====
-- internal/handlers/auth.go and auth_admin.go, while authservice answers an error to every call.
use swayrider_api.Base.{String, sym, inl, inr, List, [], ◌∷◌, ℤ, subst}
use swayrider_api.Http.{Request, Response, Handler}
use swayrider_api.Grpc.{GoError}
use swayrider_api.Handlers.Stream.{Decoded}
use swayrider_api.Handlers.Answers.{Env, with_body, answer}
use swayrider_api.Handlers.Answers.Steps.{IsFailure, write_error-IsFailure, with_body-cases}
use swayrider_api.Handlers.Auth.Service.{AuthClient, Bodies}
use swayrider_api.Handlers.Auth.Session.{login, refresh, logout, mfa_verify}
use swayrider_api.Handlers.Auth.Account.{
  register, request_password_reset, request_mfa_reset, reset_password, verify_email,
  change_password, check_password_strength, mfa_setup, mfa_enable, mfa_disable, mfa_status,
  mfa_backup_codes, who_am_i,
}
use swayrider_api.Handlers.Auth.Admin.{
  create_admin, change_account_type, who_is, invite_user, revoke_invite, list_invites,
  create_service_client, delete_service_client, list_service_clients,
}

-- Every call fails with `e`, and may change the state all the same.
abbrev pub failing : {S : Type 0} → GoError → (S → S) → AuthClient S
failing e touch = record {
  login = λ a b c d s. (inl e, touch s);
  register = λ a b c s. (inl e, touch s);
  refresh = λ a b c s. (inl e, touch s);
  logout = λ a s. (inl e, touch s);
  request_password_reset = λ a b s. (inl e, touch s);
  reset_password = λ a b c s. (inl e, touch s);
  request_mfa_reset = λ a b c d s. (inl e, touch s);
  verify_email = λ a b s. (inl e, touch s);
  change_password = λ a b c s. (inl e, touch s);
  check_password_strength = λ a s. (inl e, touch s);
  who_am_i = λ a s. (inl e, touch s);
  setup_mfa = λ a s. (inl e, touch s);
  enable_mfa = λ a b s. (inl e, touch s);
  disable_mfa = λ a b s. (inl e, touch s);
  get_mfa_status = λ a s. (inl e, touch s);
  verify_mfa = λ a b c d s. (inl e, touch s);
  generate_backup_codes = λ a b s. (inl e, touch s);
  create_admin = λ a b c s. (inl e, touch s);
  change_account_type = λ a b c s. (inl e, touch s);
  who_is = λ a b s. (inl e, touch s);
  create_service_client = λ a b c d s. (inl e, touch s);
  delete_service_client = λ a b s. (inl e, touch s);
  list_service_clients = λ a b c s. (inl e, touch s);
  invite_user = λ a b s. (inl e, touch s);
  revoke_invite = λ a b s. (inl e, touch s);
  list_invites = λ a b c d s. (inl e, touch s);
}

-- All requests fail.
abbrev pub Fails : {S : Type 0} → Handler S → Type 0
Fails {S} h = (r : Request) (s : S) → IsFailure (h r s).0

module _ {S : Type 0} where
  pub with_body-Fails :
      {A : Type 0} (decode : Request → Decoded A) (next : A → Handler S)
      → ((a : A) → Fails (next a))
      → Fails (with_body decode next)
  with_body-Fails decode next h r s = elim (with_body-cases decode next r s) [
    | inl (a, e, x) ↦ subst (λ (b : Response × S). IsFailure b.0) (sym x) (h a r s)
    | inr (refusal, x, bad) ↦ subst (λ (b : Response × S). IsFailure b.0) (sym x) bad
  ]

module _ (env : Env) {S : Type 0} (bodies : Bodies) (query : Request → String → String)
    (atoi : String → ℤ) (client : AuthClient S) where
  -- Every handler that calls authservice.
  abbrev pub session_handlers : List (Handler S)
  session_handlers =
      login env bodies client
      ∷ refresh env bodies client
      ∷ logout env bodies client
      ∷ mfa_verify env bodies client
      ∷ []

  abbrev pub account_handlers : List (Handler S)
  account_handlers =
      register env bodies client
      ∷ request_password_reset env bodies client
      ∷ request_mfa_reset env bodies client
      ∷ reset_password env bodies client
      ∷ verify_email env bodies client
      ∷ change_password env bodies client
      ∷ check_password_strength env bodies client
      ∷ mfa_setup env bodies client
      ∷ mfa_enable env bodies client
      ∷ mfa_disable env bodies client
      ∷ mfa_status env bodies client
      ∷ mfa_backup_codes env bodies client
      ∷ who_am_i env bodies client
      ∷ []

  abbrev pub admin_handlers : List (Handler S)
  admin_handlers =
      create_admin env bodies client query atoi
      ∷ change_account_type env bodies client query atoi
      ∷ who_is env bodies client query atoi
      ∷ invite_user env bodies client query atoi
      ∷ revoke_invite env bodies client query atoi
      ∷ list_invites env bodies client query atoi
      ∷ create_service_client env bodies client query atoi
      ∷ delete_service_client env bodies client query atoi
      ∷ list_service_clients env bodies client query atoi
      ∷ []

module _ (env : Env) {S : Type 0} (bodies : Bodies) (query : Request → String → String)
    (atoi : String → ℤ) (e : GoError) (touch : S → S) where
  error-Fails :
      {A : Type 0} (s : S) (ok : A → Response) → IsFailure (answer env (inl e, touch s) ok).0
  unfolding answer
  error-Fails s ok = write_error-IsFailure env e
