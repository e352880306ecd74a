-- ===== src/Handlers/Auth/Tokens.antt =====
-- internal/handlers/auth.go and auth_admin.go: the handlers that need a token, behind the Auth
-- middleware, and where the token cookies come from.
use swayrider_api.Base.{
  String, ◌≡◌, refl, sym, ap, ◌∙◌, ◌≢◌, ◌⊎◌, inl, inr, Bool, false, none, some, List, [], ◌∷◌, ◌==◌,
  eq_iff, All, ℤ, arith, Bool-cases, if-true, if-false, true_not_false,
}
use swayrider_api.Http.{
  Request, Response, Handler, Context, header_values, header_set, header_del, http_error,
}
use swayrider_api.Middleware.Auth.{auth, authenticate, verified, token_of}
use swayrider_api.Middleware.Auth
use swayrider_api.Handlers.Stream.{decoded}
use swayrider_api.Handlers.Answers.{Env, no_jwt, with_token, answer, write_json}
use swayrider_api.Handlers.Answers.Steps.{
  with_token-none, with_body-cases, answer-cases, write_error-IsFailure,
}
use swayrider_api.Handlers.Auth.Service.{AuthClient, Bodies, LoginRequest, LoginResult}
use swayrider_api.Handlers.Auth.Session.{
  login, refresh, refresh_source, login_answer, token_answer, set_auth_cookies, refresh_path,
  refresh_of,
}
use swayrider_api.Handlers.Auth.Account.{
  change_password, mfa_setup, mfa_enable, mfa_disable, mfa_status, mfa_backup_codes, who_am_i,
}
use swayrider_api.Handlers.Auth.Admin.{
  create_admin, change_account_type, who_is, invite_user, revoke_invite, list_invites,
  create_service_client, delete_service_client, list_service_clients,
}

jwt-unverified :
    {Ip Net : Type 0} (net : Auth.Env Ip Net) (trusted : List Net) (r : Request)
    → net.verify (token_of net r) ≡ none
    → (authenticate net trusted r).jwt ≡ none
unfolding authenticate verified
jwt-unverified net trusted r e = ground (arith, e)

module _ (env : Env) {S : Type 0} (bodies : Bodies) (client : AuthClient S)
    (query : Request → String → String) (atoi : String → ℤ) where
  -- The handlers that pass a token on to authservice.
  abbrev pub token_handlers : List (Handler S)
  token_handlers =
      change_password env bodies client
      ∷ mfa_setup env bodies client
      ∷ mfa_enable env bodies client
      ∷ mfa_disable env bodies client
      ∷ mfa_status env bodies client
      ∷ mfa_backup_codes env bodies client
      ∷ who_am_i env bodies client
      ∷ create_admin env bodies client query atoi
      ∷ change_account_type env bodies client query atoi
      ∷ who_is env bodies client query atoi
      ∷ invite_user env bodies client query atoi
      ∷ revoke_invite env bodies client query atoi
      ∷ list_invites env bodies client query atoi
      ∷ create_service_client env bodies client query atoi
      ∷ delete_service_client env bodies client query atoi
      ∷ list_service_clients env bodies client query atoi
      ∷ []

  token_handlers-none :
      (r : Request) (s : S)
      → r.ctx.jwt ≡ none
      → All (λ (h : Handler S). h r s ≡ (no_jwt, s)) token_handlers
  unfolding change_password mfa_setup mfa_enable mfa_disable mfa_status mfa_backup_codes who_am_i
      create_admin change_account_type who_is invite_user revoke_invite list_invites
      create_service_client delete_service_client list_service_clients
  token_handlers-none r s e =
      let no : (next : String → Handler S) → with_token next r s ≡ (no_jwt, s) =
        λ next. with_token-none next r s e in
      (
        no _,
        (
          no _,
          (
            no _,
            (
              no _,
              (
                no _,
                (
                  no _,
                  (
                    no _,
                    (no _, (no _, (no _, (no _, (no _, (no _, (no _, (no _, (no _, tt))))))))),
                  ),
                ),
              ),
            ),
          ),
        ),
      )

  -- Behind the Auth middleware, a request whose token does not verify is answered 401 by every handler
  -- that passes a token on, and authservice is not called: its state stays.
  pub token_handlers-unverified :
      {Ip Net : Type 0} (net : Auth.Env Ip Net) (trusted : List Net) (r : Request) (s : S)
      → net.verify (token_of net r) ≡ none
      → All (λ (h : Handler S). auth net trusted h r s ≡ (no_jwt, s)) token_handlers
  unfolding auth
  token_handlers-unverified net trusted r s e =
      token_handlers-none (record r { ctx = authenticate net trusted r }) s
        (jwt-unverified net trusted r e)

  -- What setAuthCookies leaves in the headers.
  abbrev pub cookies_of : Context → String → String → List String
  cookies_of ctx access_token refresh_token =
      env.server_cookie ctx "refresh_token" refresh_token (some refresh_path)
      ∷ env.server_cookie ctx "access_token" access_token none
      ∷ []

  token_answer-cookies :
      (ctx : Context) (access_token refresh_token : String)
      → header_values (token_answer env ctx access_token refresh_token).headers "Set-Cookie"
        ≡ cookies_of ctx access_token refresh_token
  unfolding token_answer write_json set_auth_cookies header_set header_del header_values
  token_answer-cookies ctx access_token refresh_token = refl

  login_answer-cookies :
      (ctx : Context) (a : LoginResult)
      → let set = header_values (login_answer env ctx a).headers "Set-Cookie" in
        ((set ≡ [])
          ⊎ (a.mfa_required ≡ false) × (set ≡ cookies_of ctx a.access_token a.refresh_token))
  unfolding login_answer write_json header_set header_del header_values
  login_answer-cookies ctx a = elim (Bool-cases a.mfa_required) [
    | inl e ↦ inl (rw e refl)
    | inr n ↦ inr (n, rw n (token_answer-cookies ctx a.access_token a.refresh_token))
  ]

  -- Login sets no cookie, or exactly the two of the tokens that authservice answered for the decoded
  -- credentials and the client IP, and then no second factor is due.
  pub login-cookies :
      (r : Request) (s : S)
      → let set = header_values (login env bodies client r s).0.headers "Set-Cookie" in
        ((set ≡ [])
          ⊎ ((q : LoginRequest) × (a : LoginResult) × (bodies.login r ≡ decoded q)
              × ((client.login q.email q.password q.remember_me r.ctx.orig_ip s).0 ≡ inr a)
              × (a.mfa_required ≡ false)
              × (set ≡ cookies_of r.ctx a.access_token a.refresh_token)))
  unfolding login
  login-cookies r s =
      elim (with_body-cases bodies.login
        (λ q r s.
          answer env (client.login q.email q.password q.remember_me r.ctx.orig_ip s)
            (login_answer env r.ctx))
        r s) [
          | inr (refusal, e, bad) ↦
              inl (ap (λ (x : Response × S). header_values x.0.headers "Set-Cookie") e ∙ bad.1)
          | inl (q, d, e) ↦
              let called = client.login q.email q.password q.remember_me r.ctx.orig_ip s in
              elim (answer-cases env called (login_answer env r.ctx)) [
                | inr (err, f, a) ↦ inl (set_of (e ∙ a) ∙ (write_error-IsFailure env err).1)
                | inl (a, f, g) ↦ elim (login_answer-cookies r.ctx a) [
                  | inl none_set ↦ inl (set_of (e ∙ g) ∙ none_set)
                  | inr (ok, set) ↦ inr (q, a, d, f, ok, set_of (e ∙ g) ∙ set)
                ]
              ]
        ]
    where
      set_of :
          {x y : Response × S}
          → x ≡ y
          → header_values x.0.headers "Set-Cookie" ≡ header_values y.0.headers "Set-Cookie"
      set_of e = ap (λ (x : Response × S). header_values x.0.headers "Set-Cookie") e

  refresh_source-cookie :
      (r : Request) → refresh_of r.ctx ≢ "" → (refresh_source env bodies r).0 ≡ refresh_of r.ctx
  unfolding refresh_source
  refresh_source-cookie r h = elim (Bool-cases (refresh_of r.ctx == "")) [
    | inl e ↦ absurd (h ((eq_iff _ _).0 e))
    | inr n ↦ rw n refl
  ]

  -- Refresh answers 400 and calls nothing, or calls authservice once with a token that is not empty:
  -- the cookie's where there is one. Its answer is the error's, or carries exactly the new tokens.
  refresh_lem :
      (r : Request) (s : S)
      → (refresh env bodies client r s ≡ (http_error "refresh token required" 400 [], s))
        ⊎ ((token : String) × (remember : Bool) × (token ≢ "")
            × (refresh_of r.ctx ≢ "" → token ≡ refresh_of r.ctx)
            × (refresh env bodies client r s
                ≡ answer env
                    (client.refresh token remember r.ctx.orig_ip s)
                    (λ t. token_answer env r.ctx t.0 t.1)))
  unfolding refresh
  refresh_lem r s =
      let source = refresh_source env bodies r in
      elim (Bool-cases (source.0 == "")) [
        | inl e ↦ inl (if-true _ _ _ e)
        | inr n ↦ inr (
          source.0,
          source.1,
          λ e. true_not_false (sym ((eq_iff _ _).1 e) ∙ n),
          refresh_source-cookie r,
          if-false _ _ _ n,
        )
      ]
