-- ===== src/Handlers/Cookies.antt =====
-- internal/handlers/proxy.go (stripCookies), and the requests that tiles.go and web.go send
-- downstream. The reverse proxy itself and its transport are package net/http/httputil.
pub mod Stripped
use swayrider_api.Base.{
  ℕ, String, append, ◌≡◌, Bool, true, false, not, Option, none, some, List, [], ◌∷◌, ◌++◌, ◌==◌,
  if◌then◌else◌, any, split, join, trim_space, trim_prefix, trim_right_by, before_char, eqb,
}
use swayrider_api.Http.{Headers, Request, header_get, header_del, header_set, header_values}

-- name := pair, cut at the first '=', and trimmed
unfoldable pub cookie_name : String → String
cookie_name pair = trim_space (before_char pair b'=')

-- keepSet[name]
abbrev pub is_kept : List String → String → Bool
is_kept keep name = any (λ k. k == name) keep

-- The pairs of one header line that are kept.
unfoldable pub kept_of : List String → List String → List String
kept_of keep [] = []
kept_of keep (pair ∷ pairs) =
    let rest = kept_of keep pairs in
    if trim_space pair == ""
    then rest
    else if is_kept keep (cookie_name (trim_space pair))
    then trim_space pair ∷ rest
    else rest

unfoldable pub kept_from : List String → List String → List String
kept_from keep [] = []
kept_from keep (line ∷ lines) = kept_of keep (split line b';') ++ kept_from keep lines

abbrev pub set_kept : Headers → List String → Headers
set_kept headers [] = header_del headers "Cookie"
set_kept headers (p ∷ kept) = header_set headers "Cookie" (join (p ∷ kept) "; ")

unfoldable pub strip_cookies : Headers → List String → Headers
strip_cookies headers [] = header_del headers "Cookie"
strip_cookies headers (k ∷ keep) =
    set_kept headers (kept_from (k ∷ keep) (header_values headers "Cookie"))

-- NewTilesProxy's handler up to ServeHTTP; `token` is what token() returns.
unfoldable pub tiles_request : String → Request → Request
tiles_request token r = record r {
  headers = header_set (strip_cookies r.headers []) "Authorization" (append "Bearer " token);
}

abbrev pub web_gateway_prefix : String
web_gateway_prefix = "/web"

unfoldable pub map_web_path : String → String → String
map_web_path path auth_web_prefix =
    append (trim_right_by (λ c. eqb c b'/') auth_web_prefix) (trim_prefix path web_gateway_prefix)

-- NewWebProxy's handler up to ServeHTTP; `access_token` is cookies.FullCookieName("access_token").
unfoldable pub web_request : String → String → Request → Request
web_request access_token auth_web_prefix r = record r {
  path = map_web_path r.path auth_web_prefix;
  headers = strip_cookies r.headers (access_token ∷ []);
}

-- registerWebPublicEndpoints: the pages that are given to security.PublicEndpoint, in order.
unfoldable pub web_public_endpoints : List String
web_public_endpoints =
    append web_gateway_prefix "/"
    ∷ append web_gateway_prefix "/index.html"
    ∷ append web_gateway_prefix "/verify-user"
    ∷ append web_gateway_prefix "/reset-password"
    ∷ append web_gateway_prefix "/reset-mfa"
    ∷ append web_gateway_prefix "/register"
    ∷ append web_gateway_prefix "/registration-complete"
    ∷ []
