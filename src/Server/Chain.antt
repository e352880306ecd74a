-- ===== src/Server/Chain.antt =====
-- internal/server/server.go: the middleware that Run puts around the mux, with the settings.
pub mod Budgeted
pub mod Limited
use swayrider_api.Base.{String, List, Option, ℤ}
use swayrider_api.Http.{Request, Handler}
use swayrider_api.Config.{Config}
use swayrider_api.Extension.{Route}
use swayrider_api.Extension.Routing.{body_limit, rate_class}
use swayrider_api.Middleware.Access.{body_limit_with}
use swayrider_api.Middleware.Auth.{Env, auth}
use swayrider_api.Middleware.RateLimit.{RateLimitConfig, Limit, rate_limit}
use swayrider_api.Server.{parse_trusted_proxies}

-- rateCfg
unfoldable pub rate_config : Config → List Route → RateLimitConfig
rate_config cfg routes = record {
  ip_auth = cfg.rate_limit_ip_auth;
  ip_public = cfg.rate_limit_ip_public;
  ip_api = cfg.rate_limit_ip_api;
  user_api = cfg.rate_limit_user_api;
  user_expensive = cfg.rate_limit_user_expensive;
  user_reroute = cfg.rate_limit_user_reroute;
  user_tiles = cfg.rate_limit_user_tiles;
  extension = rate_class routes;
}

-- The handler inside CORS; the logging in between changes neither the request nor the answer.
unfoldable pub gateway :
    {Ip Net S : Type 0}
    → Env Ip Net
    → (String → Option Net)
    → Limit S
    → Config
    → List Route
    → Handler S
    → Handler S
gateway env parse_cidr limiter cfg routes mux =
    auth env (parse_trusted_proxies parse_cidr cfg.trusted_proxies) (
      rate_limit limiter (rate_config cfg routes)
        (body_limit_with cfg.max_body_bytes (body_limit routes) mux))
