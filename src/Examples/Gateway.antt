-- ===== src/Examples/Gateway.antt =====
-- A request through the middleware chain of internal/server.
use swayrider_api.Base.{ℕ, suc, String, false, Option, none, some, [], ◌∷◌, ◌==◌, eqb}
use swayrider_api.Http.{Request, Handler, http_error, no_context}
use swayrider_api.Config.{Config}
use swayrider_api.Config
use swayrider_api.Extension.Routing.{body_limit}
use swayrider_api.Middleware.Auth.{Env}
use swayrider_api.Middleware.RateLimit.{Limit}

abbrev pub env : Env String String
env = record {
  verify = λ t. none;
  cookie = λ hs name. none;
  parse_ip = λ s. some s;
  contains = λ n i. n == i;
  split_host = λ s. some s;
  is_https = λ s. s == "https";
}

-- An environment in which no variable is set.
abbrev pub unset : Config.Env
unset = record { get = λ k d. d; get_as_int = λ k d. d; get_as_string_arr = λ k d. d ∷ [] }

abbrev pub cidr : String → Option String
cidr s = some s

abbrev pub once : Limit ℕ
once key limit window n = (record { allowed = eqb n 0; failed = false }, suc n)

abbrev pub mux : Handler ℕ
mux r s = (http_error "ok" 200 [], s)

abbrev pub request : Request
request = record {
  method = "GET";
  path = "/health";
  remote_addr = "8.8.8.8";
  tls = false;
  headers = ("X-Forwarded-For", "1.1.1.1") ∷ [];
  body_limit = none;
  ctx = no_context;
}
