-- ===== src/Server.antt =====
-- internal/server: the route table of registerRoutes (routes.go), normalizeCORSOrigins and
-- parseTrustedProxies (server.go). The handlers are a parameter, by the names that routes.go gives
-- them.
pub mod Guards
pub mod Chain
pub mod Run
pub mod Mux
use swayrider_api.Base.{
  ℕ, String, ◌⊎◌, inl, inr, Bool, true, false, ◌&&◌, ◌||◌, Option, none, some, List, [], ◌∷◌, ◌==◌,
  if◌then◌else◌, has_prefix, ends_with, trim_space, ℤ,
}
use swayrider_api.Http.{Request, Handler}
use swayrider_api.Middleware.Access.{require_verified_user, require_admin}

pub data Access : Type 0 where
  anyone : Access
  verified_user : Access
  administrator : Access

-- A pattern of the mux, a method (or "" for any) and a path, with its handler and the wrapper around it.
pub record Entry : Type 0 where
  pub method : String
  pub path : String
  pub access : Access
  pub handler : String

abbrev pub entry : String → String → Access → String → Entry
entry method path access handler = record {
  method = method;
  path = path;
  access = access;
  handler = handler;
}

unfoldable pub routes : List Entry
routes =
    entry "GET" "/api/openapi.yaml" anyone "handlers.OpenAPISpec"
    ∷ entry "GET" "/health" anyone "handlers.Health"
    ∷ entry "POST" "/api/v1/auth/login" anyone "auth.Login"
    ∷ entry "POST" "/api/v1/auth/register" anyone "auth.Register"
    ∷ entry "POST" "/api/v1/auth/refresh" anyone "auth.Refresh"
    ∷ entry "POST" "/api/v1/auth/logout" anyone "auth.Logout"
    ∷ entry "POST" "/api/v1/auth/request-password-reset" anyone "auth.RequestPasswordReset"
    ∷ entry "POST" "/api/v1/auth/reset-password" anyone "auth.ResetPassword"
    ∷ entry "POST" "/api/v1/auth/verify-email" anyone "auth.VerifyEmail"
    ∷ entry "POST" "/api/v1/auth/change-password" anyone "auth.ChangePassword"
    ∷ entry "POST" "/api/v1/auth/check-password-strength" anyone "auth.CheckPasswordStrength"
    ∷ entry "GET" "/api/v1/auth/public-keys" anyone "auth.PublicKeys"
    ∷ entry "GET" "/api/v1/auth/whoami" anyone "auth.WhoAmI"
    ∷ entry "GET" "/api/v1/auth/me" anyone "auth.Me"
    ∷ entry "POST" "/api/v1/auth/mfa/setup" anyone "auth.MfaSetup"
    ∷ entry "POST" "/api/v1/auth/mfa/enable" anyone "auth.MfaEnable"
    ∷ entry "POST" "/api/v1/auth/mfa/disable" anyone "auth.MfaDisable"
    ∷ entry "GET" "/api/v1/auth/mfa/status" anyone "auth.MfaStatus"
    ∷ entry "POST" "/api/v1/auth/mfa/verify" anyone "auth.MfaVerify"
    ∷ entry "POST" "/api/v1/auth/mfa/backup-codes" anyone "auth.MfaBackupCodes"
    ∷ entry "POST" "/api/v1/auth/mfa/reset/request" anyone "auth.RequestMfaReset"
    ∷ entry "POST" "/api/v1/route" verified_user "s.route.Route"
    ∷ entry "POST" "/api/v1/route/reroute" verified_user "s.reroute.Reroute"
    ∷ entry "POST" "/api/v1/search" verified_user "s.search.Search"
    ∷ entry "POST" "/api/v1/search/reverse" verified_user "s.search.ReverseGeocode"
    ∷ entry "POST" "/api/v1/search/autocomplete" verified_user "s.search.Autocomplete"
    ∷ entry "POST" "/api/v1/region/search-point" verified_user "region.SearchPoint"
    ∷ entry "POST" "/api/v1/region/search-box" verified_user "region.SearchBox"
    ∷ entry "POST" "/api/v1/region/search-radius" verified_user "region.SearchRadius"
    ∷ entry "POST" "/api/v1/region/find-crossing-locations" verified_user
        "region.FindCrossingLocations"
    ∷ entry "POST" "/api/v1/region/find-region-path" verified_user "region.FindRegionPath"
    ∷ entry "POST" "/api/v1/region/find-route-region-paths" verified_user
        "region.FindRouteRegionPaths"
    ∷ entry "" "/v1/tiles/" verified_user "s.tiles"
    ∷ entry "POST" "/api/v1/auth/admin/create-admin" administrator "auth.CreateAdmin"
    ∷ entry "POST" "/api/v1/auth/admin/change-account-type" administrator "auth.ChangeAccountType"
    ∷ entry "POST" "/api/v1/auth/admin/whois" administrator "auth.WhoIs"
    ∷ entry "POST" "/api/v1/auth/admin/create-service-client" administrator
        "auth.CreateServiceClient"
    ∷ entry "POST" "/api/v1/auth/admin/delete-service-client" administrator
        "auth.DeleteServiceClient"
    ∷ entry "GET" "/api/v1/auth/admin/list-service-clients" administrator "auth.ListServiceClients"
    ∷ entry "POST" "/api/v1/auth/admin/invite-user" administrator "auth.InviteUser"
    ∷ entry "POST" "/api/v1/auth/admin/revoke-invite" administrator "auth.RevokeInvite"
    ∷ entry "GET" "/api/v1/auth/admin/list-invites" administrator "auth.ListInvites"
    ∷ entry "" "/web/" anyone "s.web"
    ∷ []

-- Whether a request fits a pattern (package net/http): GET takes HEAD too, and a path that ends in a
-- slash takes all below it.
unfoldable pub fits : Entry → Request → Bool
fits e r =
    (e.method == "" || r.method == e.method || (e.method == "GET" && r.method == "HEAD"))
    && (if ends_with e.path b'/' then has_prefix r.path e.path else r.path == e.path)

module _ {S : Type 0} (handlers : String → Handler S) where
  -- The handler that registerRoutes registers for an entry.
  unfoldable pub guarded : Access → Handler S → Handler S
  guarded anyone h = h
  guarded verified_user h = require_verified_user h
  guarded administrator h = require_admin h

  unfoldable pub serve : Entry → Handler S
  serve e = guarded e.access (handlers e.handler)

-- normalizeCORSOrigins; inl is the error's text.
unfoldable pub normalize_cors_origins : List String → String ⊎ List String
normalize_cors_origins [] = inr []
normalize_cors_origins (o ∷ origins) =
    let rest = normalize_cors_origins origins in
    if trim_space o == ""
    then inl "CORS_ALLOWED_ORIGINS contains an empty entry"
    else if trim_space o == "*"
    then inl "CORS_ALLOWED_ORIGINS must not contain \"*\" while AllowCredentials is enabled"
    else elim rest [ inl err ↦ inl err | inr out ↦ inr (trim_space o ∷ out) ]

module _ {Net : Type 0} (parse_cidr : String → Option Net) where
  unfoldable pub parse_trusted_proxies : List String → List Net
  parse_trusted_proxies [] = []
  parse_trusted_proxies (c ∷ cidrs) =
      let rest = parse_trusted_proxies cidrs in
      if trim_space c == ""
      then rest
      else elim (parse_cidr (trim_space c)) [ none ↦ rest | some ipnet ↦ ipnet ∷ rest ]
