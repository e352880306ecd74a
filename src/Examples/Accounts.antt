-- ===== src/Examples/Accounts.antt =====
-- Requests to the handlers of internal/handlers/auth.go and auth_admin.go, and an authservice that
-- counts its calls.
use swayrider_api.Base.{
  ℕ, suc, String, append, ◌≡◌, refl, ◌⊎◌, inr, true, false, none, some, [], ◌∷◌, ◌==◌, All, ℤ, pos,
}
use swayrider_api.Http.{Request, Handler, no_context, header_values}
use swayrider_api.Grpc.{GoError}
use swayrider_api.Middleware.Auth.{auth, token_of}
use swayrider_api.Middleware.Auth
use swayrider_api.Handlers.Stream.{decoded, malformed}
use swayrider_api.Handlers.Answers.{Env, no_jwt}
use swayrider_api.Handlers.Auth.Service.{AuthClient, Bodies, LoginRequest, LoginResult}
use swayrider_api.Handlers.Auth.Session.{login}
use swayrider_api.Handlers.Auth.Tokens.{
  token_handlers, token_handlers-unverified, cookies_of, login-cookies,
}
use swayrider_api.Handlers.Auth.Failing.{failing}

abbrev net : Auth.Env String String
net = record {
  verify = λ t. none;
  cookie = λ hs name. none;
  parse_ip = λ s. some s;
  contains = λ n i. n == i;
  split_host = λ s. some s;
  is_https = λ s. s == "https";
}

abbrev env : Env
env = record {
  encode = λ o. "{}";
  code_name = λ c. "Unknown";
  server_cookie = λ ctx name value path. append name (append "=" value);
  clear_cookie = λ name path. append name "=";
}

abbrev bodies : Bodies
bodies = record {
  login = λ r. decoded (record { email = "a@b.c"; password = "pw"; remember_me = true });
  register = λ r. malformed;
  refresh = λ r. decoded (record { refresh_token = "r1"; remember_me = false });
  logout = λ r. malformed;
  password_reset = λ r. malformed;
  mfa_reset = λ r. malformed;
  reset_password = λ r. malformed;
  verify_email = λ r. malformed;
  change_password = λ r. malformed;
  password = λ r. decoded "pw";
  code = λ r. decoded "123456";
  mfa_verify = λ r. malformed;
  create_admin = λ r. malformed;
  account_type = λ r. malformed;
  who_is = λ r. malformed;
  email = λ r. decoded "a@b.c";
  service_client = λ r. malformed;
  client_id = λ r. decoded "c1";
}

abbrev unavailable : GoError
unavailable = record { code = 14; message = some "down"; text = "down" }

-- Login and Refresh succeed.
abbrev service : AuthClient ℕ
service = record (failing unavailable suc) {
  login = λ e p m ip n. (
    inr (record {
      access_token = "t1";
      refresh_token = "r1";
      mfa_required = false;
      mfa_token = "";
    }),
    suc n,
  );
  refresh = λ t m ip n. (inr ("t2", "r2"), suc n);
}

abbrev request : Request
request = record {
  method = "POST";
  path = "/api/v1/auth/login";
  remote_addr = "10.0.0.1";
  tls = true;
  headers = ("Authorization", "Bearer forged") ∷ [];
  body_limit = none;
  ctx = record no_context { refresh = some "r0"; orig_ip = "10.0.0.1" };
}

abbrev query : Request → String → String
query r name = ""

abbrev atoi : String → ℤ
atoi s = pos 0

forged : net.verify (token_of net request) ≡ none
forged = refl

token_handlers-unverified_example :
    All
      (λ (h : Handler ℕ). auth net [] h request 0 ≡ (no_jwt, 0))
      (token_handlers env bodies service query atoi)
token_handlers-unverified_example =
    token_handlers-unverified env bodies service query atoi net [] request 0 forged

login-cookies_example :
    let set = header_values (login env bodies service request 0).0.headers "Set-Cookie" in
    ((set ≡ [])
      ⊎ ((q : LoginRequest) × (a : LoginResult) × (bodies.login request ≡ decoded q)
          × ((service.login q.email q.password q.remember_me request.ctx.orig_ip 0).0 ≡ inr a)
          × (a.mfa_required ≡ false)
          × (set
              ≡ cookies_of env bodies service query atoi request.ctx a.access_token
                  a.refresh_token)))
login-cookies_example = login-cookies env bodies service query atoi request 0
