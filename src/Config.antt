-- ===== src/Config.antt =====
-- internal/config/config.go: the settings, read from the environment. swlib's env package is the
-- parameter `env`. Durations are in nanoseconds.
use swayrider_api.Base.{suc, ◌*◌, ◌-◌, String, List, ℤ, pos, negsuc}

-- env.Get, env.GetAsInt and env.GetAsStringArr: a variable's value, or the default.
pub record Env : Type 0 where
  pub get : String → String → String
  pub get_as_int : String → ℤ → ℤ
  pub get_as_string_arr : String → String → List String

-- time.Duration(n) * time.Second
abbrev pub seconds : ℤ → ℤ
seconds (pos n) = pos (n * 1000000000)
seconds (negsuc n) = negsuc (suc n * 1000000000 - 1)

pub record Config : Type 0 where
  pub http_port : ℤ
  pub log_level : String
  pub auth_service_host : String
  pub auth_service_port : ℤ
  pub auth_service_web_port : ℤ
  pub auth_service_web_path_prefix : String
  pub router_service_host : String
  pub router_service_port : ℤ
  pub search_service_host : String
  pub search_service_port : ℤ
  pub region_service_host : String
  pub region_service_port : ℤ
  pub tiles_service_host : String
  pub tiles_service_port : ℤ
  pub redis_host : String
  pub redis_port : ℤ
  pub client_id : String
  pub client_secret : String
  pub route_worker_count : ℤ
  pub reroute_worker_count : ℤ
  pub reroute_queue_max_depth : ℤ
  pub search_worker_count : ℤ
  pub queue_max_depth : ℤ
  pub result_ttl_seconds : ℤ
  pub rate_limit_ip_auth : ℤ
  pub rate_limit_ip_public : ℤ
  pub rate_limit_ip_api : ℤ
  pub rate_limit_user_api : ℤ
  pub rate_limit_user_expensive : ℤ
  pub rate_limit_user_reroute : ℤ
  pub rate_limit_user_tiles : ℤ
  pub rate_limit_degrade_mode : String
  pub rate_limit_degrade_threshold : ℤ
  pub rate_limit_probe_seconds : ℤ
  pub cors_allowed_origins : List String
  pub trusted_proxies : List String
  pub cookie_namespace : String
  pub max_body_bytes : ℤ
  pub extension_routes_file : String
  pub service_token_refresh_timeout : ℤ
  pub jwt_keys_fetch_timeout : ℤ
  pub jwt_keys_refresh_interval : ℤ

unfoldable pub load : Env → Config
load env = record {
  http_port = env.get_as_int "HTTP_PORT" (pos 8080);
  log_level = env.get "LOG_LEVEL" "info";
  auth_service_host = env.get "AUTHSERVICE_HOST" "localhost";
  auth_service_port = env.get_as_int "AUTHSERVICE_PORT" (pos 8081);
  auth_service_web_port = env.get_as_int "AUTHSERVICE_WEB_PORT" (pos 8000);
  auth_service_web_path_prefix = env.get "AUTHSERVICE_WEB_PATH_PREFIX" "/web";
  router_service_host = env.get "ROUTERSERVICE_HOST" "localhost";
  router_service_port = env.get_as_int "ROUTERSERVICE_PORT" (pos 8081);
  search_service_host = env.get "SEARCHSERVICE_HOST" "localhost";
  search_service_port = env.get_as_int "SEARCHSERVICE_PORT" (pos 8081);
  region_service_host = env.get "REGIONSERVICE_HOST" "localhost";
  region_service_port = env.get_as_int "REGIONSERVICE_PORT" (pos 8081);
  tiles_service_host = env.get "TILESSERVICE_HOST" "localhost";
  tiles_service_port = env.get_as_int "TILESSERVICE_PORT" (pos 8080);
  redis_host = env.get "REDIS_HOST" "localhost";
  redis_port = env.get_as_int "REDIS_PORT" (pos 6379);
  client_id = env.get "SWAYRIDER_API_CLIENT_ID" "";
  client_secret = env.get "SWAYRIDER_API_CLIENT_SECRET" "";
  route_worker_count = env.get_as_int "ROUTE_WORKER_COUNT" (pos 5);
  reroute_worker_count = env.get_as_int "REROUTE_WORKERS" (pos 2);
  reroute_queue_max_depth = env.get_as_int "REROUTE_QUEUE_MAX_DEPTH" (pos 100);
  search_worker_count = env.get_as_int "SEARCH_WORKER_COUNT" (pos 10);
  queue_max_depth = env.get_as_int "QUEUE_MAX_DEPTH" (pos 500);
  result_ttl_seconds = env.get_as_int "RESULT_TTL_SECONDS" (pos 300);
  rate_limit_ip_auth = env.get_as_int "RATE_LIMIT_IP_AUTH" (pos 10);
  rate_limit_ip_public = env.get_as_int "RATE_LIMIT_IP_PUBLIC" (pos 600);
  rate_limit_ip_api = env.get_as_int "RATE_LIMIT_IP_API" (pos 60);
  rate_limit_user_api = env.get_as_int "RATE_LIMIT_USER_API" (pos 300);
  rate_limit_user_expensive = env.get_as_int "RATE_LIMIT_USER_EXPENSIVE" (pos 20);
  rate_limit_user_reroute = env.get_as_int "RATE_LIMIT_USER_REROUTE" (pos 12);
  rate_limit_user_tiles = env.get_as_int "RATE_LIMIT_USER_TILES" (pos 3000);
  rate_limit_degrade_mode = env.get "RATE_LIMIT_DEGRADE_MODE" "memory";
  rate_limit_degrade_threshold = env.get_as_int "RATE_LIMIT_DEGRADE_THRESHOLD" (pos 3);
  rate_limit_probe_seconds = env.get_as_int "RATE_LIMIT_REDIS_PROBE_SECONDS" (pos 15);
  cors_allowed_origins = env.get_as_string_arr "CORS_ALLOWED_ORIGINS" "http://localhost:5173";
  trusted_proxies = env.get_as_string_arr "TRUSTED_PROXIES" "";
  cookie_namespace = env.get "COOKIE_NAMESPACE" "com.hevanto-it.swayrider";
  max_body_bytes = env.get_as_int "MAX_BODY_BYTES" (pos 1048576);
  extension_routes_file = env.get "EXTENSION_ROUTES_FILE" "";
  service_token_refresh_timeout = seconds (env.get_as_int "SERVICE_TOKEN_REFRESH_TIMEOUT" (pos 15));
  jwt_keys_fetch_timeout = seconds (env.get_as_int "JWT_KEYS_REFRESH_TIMEOUT" (pos 15));
  jwt_keys_refresh_interval = seconds (env.get_as_int "JWT_KEYS_REFRESH_INTERVAL" (pos 300));
}
