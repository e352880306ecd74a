-- ===== src/Server/Run/Settings.antt =====
-- internal/server/server.go: when Run listens, and with which settings.
use swayrider_api.Base.{String, ◌≡◌, ◌⊎◌, Option, none, some, List, map, trim_space, In, All}
use swayrider_api.Http.{Handler}
use swayrider_api.Config.{Config}
use swayrider_api.Extension.{Route}
use swayrider_api.Extension.Registered.{registered, clash, register_on}
use swayrider_api.Middleware.Auth.{Env}
use swayrider_api.Middleware.RateLimit.{Limit}
use swayrider_api.Server.{routes}
use swayrider_api.Server.Chain.{gateway}
use swayrider_api.Server.Guards.{IsSafeOrigin}
use swayrider_api.Server.Run.{
  CorsOptions, cors_options, Listening, Started, stopped, listening, register_routes,
}

-- A refused list of origins holds an entry that is empty or the bare star, but for white space.
pub IsRefused : List String → Type 0
IsRefused origins = (o : String) × In o origins × ((trim_space o ≡ "") ⊎ (trim_space o ≡ "*"))

module _ {M S : Type 0} (handle : String → String → Handler S → M → Option M) {Ip Net : Type 0}
    (env : Env Ip Net) (parse_cidr : String → Option Net) (limiter : Limit S)
    (serve_mux : M → Handler S) (cors : CorsOptions → Handler S → Handler S)
    (sort : List String → List String) (cfg : Config) (ext : List Route)
    (handlers : String → Handler S) (ext_handler : Route → Handler S) where
  -- Why Run stops
  pub data Reason (mux : M) : Type 0 where
    route_clash : register_routes handle handlers routes mux ≡ none → Reason mux
    extension_clash :
        (m : M) (name : String)
        → register_routes handle handlers routes mux ≡ some m
        → register_on handle ext_handler ext m ≡ clash name
        → Reason mux
    bad_origin : IsRefused cfg.cors_allowed_origins → Reason mux

  -- What Run listens with
  pub record Settings (mux : M) (l : Listening S) : Type 0 where
    pub routes_mux : M
    pub full_mux : M
    pub own : register_routes handle handlers routes mux ≡ some routes_mux
    pub extended : register_on handle ext_handler ext routes_mux ≡ registered full_mux
    pub origins : l.cors ≡ cors_options (map trim_space cfg.cors_allowed_origins)
    pub safe : All IsSafeOrigin l.cors.allowed_origins
    pub chain :
        l.handler ≡ cors l.cors (gateway env parse_cidr limiter cfg ext (serve_mux full_mux))
    pub port : l.port ≡ cfg.http_port

  abbrev pub Either : M → Started S → Type 0
  Either mux r =
      ((text : String) × (r ≡ stopped text) × Reason mux)
      ⊎ ((l : Listening S) × (r ≡ listening l) × Settings mux l)
