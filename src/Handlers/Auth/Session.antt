-- ===== src/Handlers/Auth/Session.antt =====
-- internal/handlers/auth.go: the handlers that issue and take back tokens.
use swayrider_api.Base.{String, Bool, true, false, none, some, [], ◌∷◌, ◌==◌, if◌then◌else◌}
use swayrider_api.Http.{Headers, Request, Response, Handler, Context, http_error}
use swayrider_api.Handlers.Stream.{decoded}
use swayrider_api.Handlers.Answers.{
  Env, string, boolean, add_header, no_content, write_json, answer, with_body,
}
use swayrider_api.Handlers.Auth.Service.{AuthClient, Bodies, LoginResult}

abbrev pub refresh_path : String
refresh_path = "/api/v1/auth/refresh"

-- GetRefreshToken: "" where there is none
abbrev pub refresh_of : Context → String
refresh_of ctx = elim ctx.refresh [ none ↦ "" | some t ↦ t ]

module _ (env : Env) where
  -- The Set-Cookie headers, the last one first.
  unfoldable pub set_auth_cookies : Context → String → String → Headers
  set_auth_cookies ctx access_token refresh_token =
      add_header
        (add_header [] "Set-Cookie" (env.server_cookie ctx "access_token" access_token none))
        "Set-Cookie" (env.server_cookie ctx "refresh_token" refresh_token (some refresh_path))

  unfoldable pub clear_auth_cookies : Headers
  clear_auth_cookies =
      add_header (add_header [] "Set-Cookie" (env.clear_cookie "access_token" none)) "Set-Cookie"
        (env.clear_cookie "refresh_token" (some refresh_path))

  -- setAuthCookies and the tokens as JSON
  unfoldable pub token_answer : Context → String → String → Response
  token_answer ctx access_token refresh_token =
      write_json env 200
        (("access_token", string access_token) ∷ ("refresh_token", string refresh_token) ∷ [])
        (set_auth_cookies ctx access_token refresh_token)

  unfoldable pub login_answer : Context → LoginResult → Response
  login_answer ctx a =
      if a.mfa_required
      then write_json env 200
          (("mfa_required", boolean true) ∷ ("mfa_token", string a.mfa_token) ∷ []) []
      else token_answer ctx a.access_token a.refresh_token

  -- The token and the flag of Refresh: the cookie's, or else the body's, "" for none.
  unfoldable pub refresh_source : Bodies → Request → String × Bool
  refresh_source bodies r =
      if refresh_of r.ctx == ""
      then elim (bodies.refresh r) [
        | decoded q ↦ (q.refresh_token, q.remember_me)
        | _ ↦ ("", false)
      ]
      else (refresh_of r.ctx, false)

  unfoldable pub logout_source : Bodies → Request → String
  logout_source bodies r =
      if refresh_of r.ctx == ""
      then elim (bodies.logout r) [ decoded t ↦ t | _ ↦ "" ]
      else refresh_of r.ctx

  module _ {S : Type 0} (bodies : Bodies) (client : AuthClient S) where
    unfoldable pub login : Handler S
    login = with_body bodies.login λ q r s.
        answer env (client.login q.email q.password q.remember_me r.ctx.orig_ip s)
          (login_answer r.ctx)

    unfoldable pub refresh : Handler S
    refresh r s =
        let source = refresh_source bodies r in
        if source.0 == ""
        then (http_error "refresh token required" 400 [], s)
        else answer env (client.refresh source.0 source.1 r.ctx.orig_ip s)
            (λ t. token_answer r.ctx t.0 t.1)

    unfoldable pub logout : Handler S
    logout r s =
        answer env (client.logout (logout_source bodies r) s) (λ u. no_content clear_auth_cookies)

    unfoldable pub mfa_verify : Handler S
    mfa_verify = with_body bodies.mfa_verify λ q r s.
        answer env (client.verify_mfa q.mfa_token q.code q.remember_me r.ctx.orig_ip s)
          (λ t. token_answer r.ctx t.0 t.1)
