-- ===== src/Middleware/RateLimit.antt =====
-- internal/middleware/ratelimit.go: the rate-limit class of a request and the decision on it. The
-- limiter is a parameter: its answer is (allowed, err), here with `failed` for a non-nil error.
pub mod Budgets
use swayrider_api.Base.{
  ℕ, String, append, Bool, true, false, not, ◌&&◌, ◌||◌, Option, none, some, List, [], ◌∷◌, ◌==◌,
  if◌then◌else◌, ℤ, has_prefix,
}
use swayrider_api.Http.{Request, Response, Handler, Claims, http_error, reply}
use swayrider_api.Extension.Routing.{ExtensionClass}

pub record RateLimitConfig : Type 0 where
  -- the hook for extension routes; none for every request if there is no hook
  pub extension : Request → Option ExtensionClass
  pub ip_auth : ℤ
  pub ip_public : ℤ
  pub ip_api : ℤ
  pub user_api : ℤ
  pub user_expensive : ℤ
  pub user_reroute : ℤ
  pub user_tiles : ℤ

pub record Answer : Type 0 where
  pub allowed : Bool
  pub failed : Bool

-- RateLimiter.Allow with a key, a limit and a window in nanoseconds
abbrev pub Limit : Type 0 → Type 0
Limit S = String → ℤ → ℕ → S → Answer × S

abbrev pub minute : ℕ
minute = 60000000000

abbrev pub is_auth_path : String → Bool
is_auth_path path =
    path == "/api/v1/auth/login"
    || path == "/api/v1/auth/register"
    || path == "/api/v1/auth/request-password-reset"
    || path == "/api/v1/auth/forgot-password"
    || path == "/api/v1/auth/verify-email"
    || path == "/api/v1/auth/mfa/reset/request"
    || path == "/api/v1/auth/mfa/verify"

-- The class, and whether it applies per user.
unfoldable pub endpoint_class : String → String × Bool
endpoint_class path =
    if is_auth_path path
    then ("auth", false)
    else if path == "/health" || path == "/api/v1/auth/public-keys"
    then ("public", false)
    else if has_prefix path "/v1/tiles/"
    then ("tiles", true)
    else if path == "/api/v1/route/reroute"
    then ("reroute", true)
    else if has_prefix path "/api/v1/route" || has_prefix path "/api/v1/search"
    then ("expensive", true)
    else ("api", true)

-- "rl:%s:user:%s" and "rl:%s:ip:%s"
unfoldable pub user_key : String → String → String
user_key class user = append "rl:" (append class (append ":user:" user))

unfoldable pub ip_key : String → String → String
ip_key class ip = append "rl:" (append class (append ":ip:" ip))

abbrev pub user_limit : RateLimitConfig → String → ℤ
user_limit cfg class =
    if class == "expensive"
    then cfg.user_expensive
    else if class == "reroute"
    then cfg.user_reroute
    else if class == "tiles"
    then cfg.user_tiles
    else cfg.user_api

-- The switch: the key and the limit, none for an unknown class. `who` is the caller's claims.
unfoldable pub class_budget :
    RateLimitConfig → String → Bool → Option Claims → String → Option (String × ℤ)
class_budget cfg class per_user who ip =
    if class == "auth"
    then some (append "rl:auth:ip:" ip, cfg.ip_auth)
    else if class == "public"
    then some (append "rl:pub:ip:" ip, cfg.ip_public)
    else if per_user
    then elim who [
      | some c ↦ some (user_key class c.subject, user_limit cfg class)
      | none ↦ some (ip_key class ip, cfg.ip_api)
    ]
    else none

unfoldable pub extension_budget : ExtensionClass → Option Claims → String → String × ℤ
extension_budget ext who ip = elim who [
  | none ↦ (ip_key (append "ext:" ext.name) ip, ext.ip_per_min)
  | some c ↦
      if not ext.per_ip_only
      then (user_key (append "ext:" ext.name) c.subject, ext.user_per_min)
      else (ip_key (append "ext:" ext.name) ip, ext.ip_per_min)
]

unfoldable pub budget : RateLimitConfig → Request → Option (String × ℤ)
budget cfg r = elim (cfg.extension r) [
  | some ext ↦ some (extension_budget ext r.ctx.claims r.ctx.orig_ip)
  | none ↦
      let (class, per_user) = endpoint_class r.path in
      class_budget cfg class per_user r.ctx.claims r.ctx.orig_ip
]

abbrev pub too_many : Response
too_many = http_error "rate limit exceeded" 429 (("Retry-After", "60") ∷ [])

module _ {S : Type 0} (limiter : Limit S) (cfg : RateLimitConfig) where
  -- err != nil || !allowed
  abbrev pub refuses : Answer → Bool
  refuses a = a.failed || not a.allowed

  unfoldable pub rate_limit : Handler S → Handler S
  rate_limit next r s = elim (budget cfg r) [
    | none ↦ reply too_many s
    | some (key, limit) ↦
        let (answer, s') = limiter key limit minute s in
        if refuses answer then reply too_many s' else next r s'
  ]
