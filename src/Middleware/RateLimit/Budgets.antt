-- ===== src/Middleware/RateLimit/Budgets.antt =====
-- internal/middleware/ratelimit.go: the limiter call that a request makes.
use text.Mathlib.TextLemmas.{append_assoc}
use swayrider_api.Base.{
  String, append, ◌≡◌, refl, sym, ap, ◌∙◌, ◌⊎◌, inl, inr, Bool, true, false, Option, none, some,
  List, [], ◌∷◌, arith, if◌then◌else◌, ℤ, Bool-cases, Option-cases, In, subst,
}
use swayrider_api.Http.{Request, Response, Handler, Claims, http_error}
use swayrider_api.Extension.{Route, Url, reserved_prefixes}
use swayrider_api.Extension.Validation.{AreRoutes}
use swayrider_api.Extension.Routing.{ExtensionClass, rate_class}
use swayrider_api.Extension.Reserved.{IsInside, match-reserved}
use swayrider_api.Middleware.RateLimit.{
  RateLimitConfig, Limit, minute, endpoint_class, user_key, ip_key, class_budget, extension_budget,
  budget, rate_limit, Answer,
}

some-injective : {A : Type 0} {a b : A} → ◌≡◌ {A = Option A} (some a) (some b) → a ≡ b
some-injective e = cc

-- What the budget of a class looks like: a key for the user, or a key for the IP.
abbrev pub IsIpKey : String → String → Type 0
IsIpKey ip key = (class : String) × (key ≡ append "rl:" (append class (append ":ip:" ip)))

abbrev pub IsUserKey : String → String → Type 0
IsUserKey user key = (class : String) × (key ≡ append "rl:" (append class (append ":user:" user)))

abbrev IsKey : Option Claims → String → String → Type 0
IsKey none ip key = IsIpKey ip key
IsKey (some c) ip key = IsIpKey ip key ⊎ IsUserKey c.subject key

abbrev ladder : Bool → Bool → Bool → Bool → Bool → String × Bool
ladder a b c d e =
    if a
    then ("auth", false)
    else if b
    then ("public", false)
    else if c
    then ("tiles", true)
    else if d
    then ("reroute", true)
    else if e
    then ("expensive", true)
    else ("api", true)

key_of_auth : (ip : String) → IsIpKey ip (append "rl:auth:ip:" ip)
key_of_auth ip =
    ("auth", append_assoc "rl:" "auth:ip:" ip ∙ ap (append "rl:") (append_assoc "auth" ":ip:" ip))

key_of_public : (ip : String) → IsIpKey ip (append "rl:pub:ip:" ip)
key_of_public ip =
    ("pub", append_assoc "rl:" "pub:ip:" ip ∙ ap (append "rl:") (append_assoc "pub" ":ip:" ip))

-- The default case of the switch is never reached.
ladder_budget :
    (cfg : RateLimitConfig) (a b c d e : Bool) (who : Option Claims) (ip : String)
    → (k : String × ℤ) × (class_budget cfg (ladder a b c d e).0 (ladder a b c d e).1 who ip
        ≡ some k)
      × IsKey who ip k.0
unfolding class_budget user_key ip_key
ladder_budget cfg true b c d e none ip = (_, refl, key_of_auth ip)
ladder_budget cfg true b c d e (some x) ip = (_, refl, inl (key_of_auth ip))
ladder_budget cfg false true c d e none ip = (_, refl, key_of_public ip)
ladder_budget cfg false true c d e (some x) ip = (_, refl, inl (key_of_public ip))
ladder_budget cfg false false true d e none ip = (_, refl, ("tiles", refl))
ladder_budget cfg false false true d e (some x) ip = (_, refl, inr ("tiles", refl))
ladder_budget cfg false false false true e none ip = (_, refl, ("reroute", refl))
ladder_budget cfg false false false true e (some x) ip = (_, refl, inr ("reroute", refl))
ladder_budget cfg false false false false true none ip = (_, refl, ("expensive", refl))
ladder_budget cfg false false false false true (some x) ip = (_, refl, inr ("expensive", refl))
ladder_budget cfg false false false false false none ip = (_, refl, ("api", refl))
ladder_budget cfg false false false false false (some x) ip = (_, refl, inr ("api", refl))

class_budget-some :
    (cfg : RateLimitConfig) (path : String) (who : Option Claims) (ip : String)
    → (k : String × ℤ) × (class_budget cfg (endpoint_class path).0 (endpoint_class path).1 who ip
        ≡ some k)
      × IsKey who ip k.0
unfolding endpoint_class
class_budget-some cfg path who ip = ladder_budget cfg _ _ _ _ _ who ip

extension_budget-IsKey :
    (ext : ExtensionClass) (who : Option Claims) (ip : String)
    → IsKey who ip (extension_budget ext who ip).0
unfolding extension_budget user_key ip_key
extension_budget-IsKey ext none ip = (append "ext:" ext.name, refl)
extension_budget-IsKey ext (some c) ip = elim (Bool-cases ext.per_ip_only) [
  | inl only ↦ inl (append "ext:" ext.name, ground (arith, only))
  | inr user ↦ inr (append "ext:" ext.name, ground (arith, user))
]

-- Each request has a budget. Without claims its key names the request's IP; with claims it names the
-- IP or the claims' subject.
budget-some :
    (cfg : RateLimitConfig) (r : Request)
    → (k : String × ℤ) × (budget cfg r ≡ some k) × IsKey r.ctx.claims r.ctx.orig_ip k.0
unfolding budget
budget-some cfg r = elim (Option-cases (cfg.extension r)) [
  | inl e ↦
      let (k, b, key) = class_budget-some cfg r.path r.ctx.claims r.ctx.orig_ip in
      (k, rw (e, budget) b, key)
  | inr (ext, e) ↦ (
    extension_budget ext r.ctx.claims r.ctx.orig_ip,
    rw (e, budget),
    extension_budget-IsKey ext r.ctx.claims r.ctx.orig_ip,
  )
]

-- Without claims the key of the budget ends in the client's IP, whatever the path.
pub budget-IsIpKey :
    (cfg : RateLimitConfig) (r : Request) (k : String × ℤ)
    → budget cfg r ≡ some k
    → r.ctx.claims ≡ none
    → IsIpKey r.ctx.orig_ip k.0
budget-IsIpKey cfg r k b e =
    let (j, c, key) = budget-some cfg r in
    let same : j ≡ k = some-injective (sym c ∙ b) in
    subst (λ (j : String × ℤ). IsIpKey r.ctx.orig_ip j.0) same
      (subst (λ c. IsKey c r.ctx.orig_ip j.0) e key)

-- What the middleware answers after the limiter's answer: the next handler's answer where the limiter
-- allowed the request with no error, and else the 429 answer.
abbrev pub Decided : {S : Type 0} → Answer × S → (S → Response × S) → Response × S → Type 0
Decided decision continue result =
    ((decision.0.allowed ≡ true) × (decision.0.failed ≡ false) × (result ≡ continue decision.1))
    ⊎ (((decision.0.allowed ≡ false) ⊎ (decision.0.failed ≡ true))
        × (result
            ≡ (http_error "rate limit exceeded" 429 (("Retry-After", "60") ∷ []), decision.1)))

pub rate_limit-Decided :
    {S : Type 0} (limiter : Limit S) (cfg : RateLimitConfig) (next : Handler S) (r : Request)
    (s : S) (k : String × ℤ)
    → budget cfg r ≡ some k
    → Decided (limiter k.0 k.1 minute s) (next r) (rate_limit limiter cfg next r s)
unfolding rate_limit
rate_limit-Decided limiter cfg next r s k b =
    let answer = (limiter k.0 k.1 minute s).0 in
    elim (Bool-cases answer.failed) [
      | inl failed ↦ inr (inr failed, rw (b, rate_limit, failed) refl)
      | inr fine ↦ elim (Bool-cases answer.allowed) [
        | inl allowed ↦ inl (allowed, fine, rw (b, rate_limit, fine, allowed) refl)
        | inr denied ↦ inr (inl denied, rw (b, rate_limit, fine, denied) refl)
      ]
    ]

abbrev pub without_extension : RateLimitConfig → RateLimitConfig
without_extension cfg = record cfg { extension = λ r. none }

-- Validated extension routes do not change the budget of any request inside a path that is
-- reserved for the gateway.
budget-reserved :
    (url_parse : String → Option Url) (routes : List Route) (cfg : RateLimitConfig) (r : Request)
    (reserved : String)
    → AreRoutes url_parse [] [] routes
    → In reserved reserved_prefixes
    → IsInside reserved r.path
    → budget (record cfg { extension = rate_class routes }) r ≡ budget (without_extension cfg) r
unfolding budget class_budget
budget-reserved url_parse routes cfg r reserved h listed inside =
    rw ((match-reserved url_parse routes r reserved h listed inside).2, budget)
