-- ===== src/Examples/Extensions.antt =====
-- Two extension routes of internal/extension/extension.go, one below the other.
use swayrider_api.Base.{
  String, ◌≡◌, refl, ◌↔◌, inl, inr, false, Option, none, some, List, [], ◌∷◌, ◌==◌, if◌then◌else◌,
  In, pos, has_prefix, len, contains_any, contains,
}
use swayrider_api.Http.{Request, no_context}
use swayrider_api.Extension.{
  Route, Url, validate, reserved_prefixes, auth_user, validate_from, check_route, validate_path,
  check_methods, validate_upstream, check_rest, allowed_methods,
}
use swayrider_api.Extension.Validation.{AreRoutes, validate_iff}
use swayrider_api.Extension.Routing.{match, body_limit, rate_class}
use swayrider_api.Extension.Choice.{IsBest, match_iff}
use swayrider_api.Extension.Reserved.{match-reserved}
use swayrider_api.Middleware.RateLimit.{RateLimitConfig}

-- A parser that knows one address.
abbrev pub parse : String → Option Url
parse raw =
    if raw == "http://poi:8080"
    then some (record {
      scheme = "http";
      host = "poi:8080";
      path = "";
      raw_query = "";
      fragment = "";
      has_user = false;
    })
    else none

abbrev pub route : String → String → Route
route name path = record {
  name = name;
  path = path;
  methods = "GET" ∷ "POST" ∷ [];
  upstream = "http://poi:8080";
  auth = auth_user;
  forward_authorization = false;
  max_body_bytes = pos 1024;
  timeout = pos 5000000000;
  rate_limit = record { user_per_min = pos 60; ip_per_min = pos 30 };
}

abbrev pub two_routes : List Route
two_routes = route "poi" "/api/v1/poi/" ∷ route "poi_near" "/api/v1/poi/near" ∷ []

abbrev pub request_to : String → Request
request_to path = record {
  method = "GET";
  path = path;
  remote_addr = "10.0.0.1:4000";
  tls = false;
  headers = [];
  body_limit = none;
  ctx = no_context;
}

validate_iff_example : (validate parse two_routes ≡ none) ↔ AreRoutes parse [] [] two_routes
validate_iff_example = validate_iff parse two_routes

pub two_routes-Valid : AreRoutes parse [] [] two_routes
unfolding validate validate_from check_route validate_path check_methods validate_upstream
    check_rest allowed_methods reserved_prefixes has_prefix len contains_any contains
two_routes-Valid = (validate_iff parse two_routes).0 refl

match_iff_example :
    (match two_routes (request_to "/api/v1/poi/near") ≡ some (route "poi_near" "/api/v1/poi/near"))
    ↔ IsBest two_routes (request_to "/api/v1/poi/near") (route "poi_near" "/api/v1/poi/near")
match_iff_example =
    match_iff parse two_routes (request_to "/api/v1/poi/near") (route "poi_near" "/api/v1/poi/near")
      two_routes-Valid

auth-Reserved : In "/api/v1/auth" reserved_prefixes
unfolding reserved_prefixes
auth-Reserved = inl refl

match-reserved_example :
    (match two_routes (request_to "/api/v1/auth/login") ≡ none)
    × (body_limit two_routes (request_to "/api/v1/auth/login") ≡ none)
    × (rate_class two_routes (request_to "/api/v1/auth/login") ≡ none)
match-reserved_example =
    match-reserved parse two_routes (request_to "/api/v1/auth/login") "/api/v1/auth"
      two_routes-Valid auth-Reserved (inr ("login", refl))

abbrev config : RateLimitConfig
config = record {
  ip_auth = pos 10;
  ip_public = pos 60;
  ip_api = pos 60;
  user_api = pos 120;
  user_expensive = pos 20;
  user_reroute = pos 30;
  user_tiles = pos 600;
  extension = λ r. none;
}
