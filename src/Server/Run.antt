-- ===== src/Server/Run.antt =====
-- internal/server/server.go: Run, from the mux to the server that listens. The mux of package net/http
-- is a type M with `handle` and `serve_mux`; package cors is the parameter `cors`. `stopped` stands for
-- a crash in registerRoutes or a Fatalf. What follows ListenAndServe is input and output.
pub mod Settings
use swayrider_api.Base.{
  String, append, ◌⊎◌, inl, inr, Bool, true, Option, none, some, List, [], ◌∷◌, ◌++◌, map, ℤ, ◌==◌,
  if◌then◌else◌,
}
use swayrider_api.Http.{Request, Handler}
use swayrider_api.Config.{Config}
use swayrider_api.Extension.{Route}
use swayrider_api.Extension.Registered.{Registration, registered, clash, register_on, describe}
use swayrider_api.Middleware.Auth.{Env}
use swayrider_api.Middleware.RateLimit.{Limit}
use swayrider_api.Server.{Entry, routes, serve, normalize_cors_origins}
use swayrider_api.Server.Chain.{gateway}

-- cors.Options with the fields that Run sets
pub record CorsOptions : Type 0 where
  pub allowed_origins : List String
  pub allowed_methods : List String
  pub allowed_headers : List String
  pub allow_credentials : Bool

unfoldable pub cors_options : List String → CorsOptions
cors_options origins = record {
  allowed_origins = origins;
  allowed_methods = "GET" ∷ "POST" ∷ "PUT" ∷ "DELETE" ∷ "OPTIONS" ∷ [];
  allowed_headers = "Authorization" ∷ "Content-Type" ∷ [];
  allow_credentials = true;
}

-- The lines that Run logs before it listens, and the server
pub record Listening (S : Type 0) : Type 0 where
  pub lines : List String
  pub port : ℤ
  pub cors : CorsOptions
  pub handler : Handler S

pub data Started (S : Type 0) : Type 0 where
  stopped : String → Started S
  listening : Listening S → Started S

module _ {M S : Type 0} (handle : String → String → Handler S → M → Option M) where
  -- registerRoutes: none where the mux panics
  unfoldable pub register_routes : (String → Handler S) → List Entry → M → Option M
  register_routes handlers [] mux = some mux
  register_routes handlers (e ∷ es) mux = elim (handle e.method e.path (serve handlers e) mux) [
    | none ↦ none
    | some mux' ↦ register_routes handlers es mux'
  ]

  module _ {Ip Net : Type 0} (env : Env Ip Net) (parse_cidr : String → Option Net)
      (limiter : Limit S) (serve_mux : M → Handler S) (cors : CorsOptions → Handler S → Handler S)
      (sort : List String → List String) (cfg : Config) (ext : List Route) where
    -- The rest of Run, once the mux is complete
    unfoldable pub listen : M → String ⊎ List String → Started S
    listen mux (inl err) = stopped (append "invalid CORS configuration: " err)
    listen mux (inr origins) = listening (record {
      lines = map (append "extension route: ") (describe sort ext);
      port = cfg.http_port;
      cors = cors_options origins;
      handler =
          cors (cors_options origins) (gateway env parse_cidr limiter cfg ext (serve_mux mux));
    })

    unfoldable pub with_routes : Registration M → Started S
    with_routes (clash name) = stopped (append "invalid extension routes: " name)
    with_routes (registered mux) = listen mux (normalize_cors_origins cfg.cors_allowed_origins)

    unfoldable pub with_own : (Route → Handler S) → Option M → Started S
    with_own ext_handler none = stopped "panic"
    with_own ext_handler (some mux) = with_routes (register_on handle ext_handler ext mux)

    unfoldable pub run : (String → Handler S) → (Route → Handler S) → M → Started S
    run handlers ext_handler mux = with_own ext_handler (register_routes handlers routes mux)
