-- ===== src/Examples/Clients.antt =====
-- Requests through a proxy (internal/middleware/auth.go), and cookies on the way to the services.
use swayrider_api.Base.{
  String, append, ◌≡◌, refl, ◌⊎◌, true, false, none, some, List, [], ◌∷◌, ◌==◌, if◌then◌else◌,
  trim_space, join, All, contains_char, has_prefix, trim_prefix, drop_text, trim_left,
  trim_right_by,
}
use swayrider_api.Base.{ℕ, inl, suc, pos}
use swayrider_api.Http.{http_error}
use swayrider_api.Middleware.Access.{unauthorized, forbidden, forbidden_email}
use swayrider_api.Extension.{Route}
use swayrider_api.Extension.Upstream.{Trip, answered, prepare_upstream_request, handler}
use swayrider_api.Extension.Upstream.Guarded.{
  AreSent, prepare_upstream_request-AreSent, handler-refuses,
}
use swayrider_api.Http.{Request, Claims, no_context, header_values, header_get}
use swayrider_api.Middleware.Auth.{
  Env, authenticate, peer_ip, is_trusted_proxy, is_skipped, token_of, verified,
}
use swayrider_api.Middleware.Auth.ClientIp.{orig_ip-append}
use swayrider_api.Handlers.Cookies.{web_request}
use swayrider_api.Handlers.Cookies.Stripped.{IsAllowed, web_request-cookies}

abbrev claims : Claims
claims = record { subject = "u1"; email = none; email_verified = some true; user = none }

-- Addresses are their texts, a network is one address, and one token verifies.
abbrev env : Env String String
env = record {
  verify = λ t. if t == "good" then some claims else none;
  cookie = λ hs name. none;
  parse_ip = λ s. some s;
  contains = λ n i. n == i;
  split_host = λ s. some s;
  is_https = λ s. s == "https";
}

abbrev request_from : String → Request
request_from peer = record {
  method = "GET";
  path = "/api/v1/auth/me";
  remote_addr = peer;
  tls = false;
  headers =
      ("X-Forwarded-For", "6.6.6.6,9.9.9.9")
      ∷ ("Authorization", "Bearer good")
      ∷ ("Cookie", "access_token=a; b=c")
      ∷ [];
  body_limit = none;
  ctx = no_context;
}

abbrev proxies : List String
proxies = "10.0.0.1" ∷ []

through_proxy : is_trusted_proxy env (peer_ip env (request_from "10.0.0.1")) proxies ≡ true
unfolding is_trusted_proxy peer_ip
through_proxy = refl

forwarded :
    header_get (request_from "10.0.0.1").headers "X-Forwarded-For"
    ≡ append "6.6.6.6" (append "," "9.9.9.9")
unfolding header_get
forwarded = refl

one_address : contains_char "9.9.9.9" b',' ≡ false
unfolding contains_char
one_address = refl

seen_client : is_skipped env proxies (trim_space "9.9.9.9") ≡ false
unfolding is_trusted_proxy trim_space trim_left trim_right_by
seen_client = refl

orig_ip-append_example :
    (authenticate env proxies (request_from "10.0.0.1")).orig_ip ≡ trim_space "9.9.9.9"
orig_ip-append_example =
    orig_ip-append env proxies (request_from "10.0.0.1") "6.6.6.6" "9.9.9.9" through_proxy forwarded
      one_address seen_client

known : (authenticate env proxies (request_from "8.8.8.8")).claims ≡ some claims
unfolding authenticate verified token_of header_get has_prefix trim_prefix drop_text
known = refl

web_request-cookies_example :
    (header_values (web_request "access_token" "/auth" (request_from "8.8.8.8")).headers "Cookie"
      ≡ [])
    ⊎ ((kept : List String) × (header_values
            (web_request "access_token" "/auth" (request_from "8.8.8.8")).headers
            "Cookie"
          ≡ join kept "; " ∷ [])
        × All (IsAllowed ("access_token" ∷ [])) kept)
web_request-cookies_example = web_request-cookies "access_token" "/auth" (request_from "8.8.8.8")

-- Names are in lower case already, and the upstream counts its calls.
abbrev as_is : String → String
as_is name = name

abbrev upstream : Request → ℕ → Trip × ℕ
upstream r n = (answered (http_error "ok" 200 []), suc n)

abbrev poi : Route
poi = record {
  name = "poi";
  path = "/api/v1/poi/";
  methods = "GET" ∷ [];
  upstream = "http://poi:8080";
  auth = "user";
  forward_authorization = true;
  max_body_bytes = pos 1024;
  timeout = pos 5000000000;
  rate_limit = record { user_per_min = pos 60; ip_per_min = pos 30 };
}

prepare_upstream_request-AreSent_example : AreSent as_is true (some "good") (
    prepare_upstream_request as_is
      (("x-user-id", "root") ∷ ("Accept", "*/*") ∷ [])
      (some "good")
      true)
prepare_upstream_request-AreSent_example =
    prepare_upstream_request-AreSent as_is (("x-user-id", "root") ∷ ("Accept", "*/*") ∷ [])
      (some "good") true

handler-refuses_example :
    ((handler as_is upstream none poi (request_from "8.8.8.8") 4).1 ≡ 4)
    × (((handler as_is upstream none poi (request_from "8.8.8.8") 4).0 ≡ unauthorized)
        ⊎ ((handler as_is upstream none poi (request_from "8.8.8.8") 4).0 ≡ forbidden_email)
        ⊎ ((handler as_is upstream none poi (request_from "8.8.8.8") 4).0 ≡ forbidden))
handler-refuses_example =
    handler-refuses as_is upstream none poi (request_from "8.8.8.8") 4 (inl (refl, refl))
