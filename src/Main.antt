-- ===== src/Main.antt =====
-- cmd/swayrider-api/main.go: how the gateway is put together from its settings. `connect` is the New of
-- a gRPC client with its address: the error's text, or none; `read_file` gives the decoded routes of a
-- file, or the error's text. A Fatalf is inl with its text. The Redis client and the key cache, whose
-- constructors return no error, are opened outside.
pub mod Wired
use swayrider_api.Base.{
  Option, some, none, ℕ, zero, suc, String, ◌⊎◌, inl, inr, List, [], ◌∷◌, ◌++◌, map, ℤ, pos, ◌==◌,
  if◌then◌else◌,
}
use swayrider_api.Grpc.{GoError}
use swayrider_api.Config.{Config, seconds}
use swayrider_api.Extension.{Url, Route, Refusal, load}
use swayrider_api.Extension.Routing.{names}
use swayrider_api.Extension.Registered.{new_set}
use swayrider_api.RateLimit.Limiter.{Options, Limiter, new_limiter}
use swayrider_api.Circuit.{Gobreaker, Registry, new_registry}
use swayrider_api.Queue.{Job, stream_routing, stream_rerouting, stream_search}

abbrev pub Address : Type 0
Address = String × ℤ

-- redis.Options, with durations in nanoseconds
pub record RedisOptions : Type 0 where
  pub addr : Address
  pub dial_timeout : ℕ
  pub read_timeout : ℕ
  pub write_timeout : ℕ
  pub max_retries : ℕ

unfoldable pub redis_options : Config → RedisOptions
redis_options cfg = record {
  addr = (cfg.redis_host, cfg.redis_port);
  dial_timeout = 2000000000;
  read_timeout = 1000000000;
  write_timeout = 1000000000;
  max_retries = 1;
}

-- The arguments of servicetoken.New
pub record TokenOptions : Type 0 where
  pub client_id : String
  pub client_secret : String
  pub scopes : List String
  pub refresh_timeout : ℤ

unfoldable pub token_options : Config → TokenOptions
token_options cfg = record {
  client_id = cfg.client_id;
  client_secret = cfg.client_secret;
  scopes = "region:query" ∷ "routing:execute" ∷ "search:execute" ∷ "tiles:serve" ∷ [];
  refresh_timeout = cfg.service_token_refresh_timeout;
}

-- ratelimit.Options; MaxMemoryKeys is left at zero.
unfoldable pub limiter_options : Config → Options
limiter_options cfg = record {
  degrade_mode = cfg.rate_limit_degrade_mode;
  degrade_threshold = cfg.rate_limit_degrade_threshold;
  probe_interval = seconds cfg.rate_limit_probe_seconds;
  max_memory_keys = pos 0;
}

abbrev pub services : List String
services = "authservice" ∷ "routerservice" ∷ "searchservice" ∷ "regionservice" ∷ []

unfoldable pub breaker_names : List Route → List String
breaker_names ext = services ++ names ext

-- queue.WorkerConfig; a process function works on the world W.
pub record WorkerConfig (W : Type 0) : Type 0 where
  pub stream : String
  pub count : ℤ
  pub process : Job → W → (GoError ⊎ String) × W
  pub result_ttl : ℤ

-- WorkerPool.Start: the names of the goroutines, worker-0 and on
unfoldable pub workers_from : (ℕ → String) → ℕ → ℕ → List String
workers_from name i zero = []
workers_from name i (suc n) = name i ∷ workers_from name (suc i) n

unfoldable pub start_pool : {W : Type 0} → (ℕ → String) → WorkerConfig W → List String
start_pool name pool = elim pool.count [ pos n ↦ workers_from name 0 n | _ ↦ [] ]

-- The process functions of the three kinds of job
pub record Processes (W : Type 0) : Type 0 where
  pub route : Job → W → (GoError ⊎ String) × W
  pub reroute : Job → W → (GoError ⊎ String) × W
  pub search : Job → W → (GoError ⊎ String) × W

module _ {W : Type 0} (processes : Processes W) where
  unfoldable pub pools : Config → List (WorkerConfig W)
  pools cfg =
      record {
        stream = stream_routing;
        count = cfg.route_worker_count;
        process = processes.route;
        result_ttl = seconds cfg.result_ttl_seconds;
      }
      ∷ record {
        stream = stream_rerouting;
        count = cfg.reroute_worker_count;
        process = processes.reroute;
        result_ttl = seconds cfg.result_ttl_seconds;
      }
      ∷ record {
        stream = stream_search;
        count = cfg.search_worker_count;
        process = processes.search;
        result_ttl = seconds cfg.result_ttl_seconds;
      }
      ∷ []

-- What main hands to the server and starts
pub record Gateway (G W : Type 0) : Type 0 where
  pub auth_service : Address
  pub region_service : Address
  pub router_service : Address
  pub search_service : Address
  pub tiles_service : Address
  pub web_service : Address
  pub web_prefix : String
  pub redis : RedisOptions
  pub token : TokenOptions
  pub cookie_namespace : String
  -- keyCache.Configure
  pub keys_refresh_interval : ℤ
  pub keys_fetch_timeout : ℤ
  pub limiter : Limiter
  pub breakers : Registry G
  pub extensions : List Route
  -- the limits of the producer of Route and Search, and of that of Reroute
  pub queue_depth : ℤ
  pub reroute_depth : ℤ
  pub pools : List (WorkerConfig W)

-- Why main stops before the server runs
pub data Fatal : Type 0 where
  -- a client and the error of its New
  no_client : String → String → Fatal
  unreadable : String → Fatal
  invalid_file : Refusal → Fatal
  invalid_set : Refusal → Fatal

unfoldable pub clients : Config → List (String × Address)
clients cfg =
    ("authclient", (cfg.auth_service_host, cfg.auth_service_port))
    ∷ ("regionclient", (cfg.region_service_host, cfg.region_service_port))
    ∷ ("routerclient", (cfg.router_service_host, cfg.router_service_port))
    ∷ ("searchclient", (cfg.search_service_host, cfg.search_service_port))
    ∷ []

-- The first client that cannot be made stops main.
unfoldable pub open_clients :
    (String → Address → Option String) → List (String × Address) → Option Fatal
open_clients connect [] = none
open_clients connect ((name, address) ∷ rest) =
    let later = open_clients connect rest in
    elim (connect name address) [ some text ↦ some (no_client name text) | none ↦ later ]

module _ {G W : Type 0} (gobreaker : Gobreaker G W) (processes : Processes W)
    (url_parse : String → Option Url) (read_file : String → String ⊎ List Route) where
  -- extRoutes
  unfoldable pub extension_routes : Config → Fatal ⊎ List Route
  extension_routes cfg =
      if cfg.extension_routes_file == ""
      then inr []
      else elim (read_file cfg.extension_routes_file) [
        | inl text ↦ inl (unreadable text)
        | inr decoded ↦ elim (load url_parse decoded) [
          | inl refusal ↦ inl (invalid_file refusal)
          | inr routes ↦ inr routes
        ]
      ]

  unfoldable pub gateway_of : Config → List Route → Gateway G W
  gateway_of cfg ext = record {
    auth_service = (cfg.auth_service_host, cfg.auth_service_port);
    region_service = (cfg.region_service_host, cfg.region_service_port);
    router_service = (cfg.router_service_host, cfg.router_service_port);
    search_service = (cfg.search_service_host, cfg.search_service_port);
    tiles_service = (cfg.tiles_service_host, cfg.tiles_service_port);
    web_service = (cfg.auth_service_host, cfg.auth_service_web_port);
    web_prefix = cfg.auth_service_web_path_prefix;
    redis = redis_options cfg;
    token = token_options cfg;
    cookie_namespace = cfg.cookie_namespace;
    keys_refresh_interval = cfg.jwt_keys_refresh_interval;
    keys_fetch_timeout = cfg.jwt_keys_fetch_timeout;
    limiter = new_limiter (limiter_options cfg);
    breakers = new_registry gobreaker (breaker_names ext);
    extensions = ext;
    queue_depth = cfg.queue_max_depth;
    reroute_depth = cfg.reroute_queue_max_depth;
    pools = pools processes cfg;
  }

  -- extension.NewSet validates the routes once more.
  unfoldable pub with_set : Config → List Route → Fatal ⊎ Gateway G W
  with_set cfg ext = elim (new_set url_parse ext) [
    | inl refusal ↦ inl (invalid_set refusal)
    | inr routes ↦ inr (gateway_of cfg routes)
  ]

  unfoldable pub start : (String → Address → Option String) → Config → Fatal ⊎ Gateway G W
  start connect cfg = elim (open_clients connect (clients cfg)) [
    | some fatal ↦ inl fatal
    | none ↦ elim (extension_routes cfg) [ inl fatal ↦ inl fatal | inr ext ↦ with_set cfg ext ]
  ]
