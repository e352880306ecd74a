-- ===== src/Server/Chain/Budgeted.antt =====
-- internal/middleware/ratelimit.go and the limits that internal/server/server.go passes to it: the key
-- and the limit of a request by its path, its caller and the settings.
use swayrider_api.Base.{
  String, append, ◌≡◌, refl, sym, ◌∙◌, ◌⊎◌, inl, inr, ◌≢◌, Bool, true, false, ◌||◌, Option, none,
  some, List, [], ◌∷◌, ◌==◌, eq_iff, ℤ, has_prefix, any, arith, Bool-cases, Option-cases,
  true_not_false, subst,
}
use swayrider_api.Http.{Request, Claims}
use swayrider_api.Config.{Config}
use swayrider_api.Extension.{Route}
use swayrider_api.Extension.Routing.{ExtensionClass, rate_class}
use swayrider_api.Middleware.RateLimit.{
  endpoint_class, is_auth_path, user_key, ip_key, class_budget, extension_budget, budget,
}
use swayrider_api.Server.Chain.{rate_config}

abbrev pub login_paths : List String
login_paths =
    "/api/v1/auth/login" ∷ "/api/v1/auth/register" ∷ "/api/v1/auth/request-password-reset"
    ∷ "/api/v1/auth/forgot-password" ∷ "/api/v1/auth/verify-email"
    ∷ "/api/v1/auth/mfa/reset/request" ∷ "/api/v1/auth/mfa/verify" ∷ []

abbrev pub public_paths : List String
public_paths = "/health" ∷ "/api/v1/auth/public-keys" ∷ []

abbrev pub is_one_of : List String → String → Bool
is_one_of paths path = any (λ p. path == p) paths

module _ (cfg : Config) (path : String) where
  -- The classes of the other paths, each with the limit of a user.
  pub data UserClass : String → ℤ → Type 0 where
    tiles : has_prefix path "/v1/tiles/" ≡ true → UserClass "tiles" cfg.rate_limit_user_tiles
    reroute_path : path ≡ "/api/v1/route/reroute" → UserClass "reroute" cfg.rate_limit_user_reroute
    expensive :
        path ≢ "/api/v1/route/reroute"
        → (has_prefix path "/api/v1/route" ≡ true) ⊎ (has_prefix path "/api/v1/search" ≡ true)
        → UserClass "expensive" cfg.rate_limit_user_expensive
    other :
        has_prefix path "/v1/tiles/" ≡ false
        → has_prefix path "/api/v1/route" ≡ false
        → has_prefix path "/api/v1/search" ≡ false
        → UserClass "api" cfg.rate_limit_user_api

  -- The key and the limit of a request to one of the gateway's own paths.
  pub data PathBudget (ip : String) : Option Claims → String → ℤ → Type 0 where
    login :
        (who : Option Claims)
        → is_one_of login_paths path ≡ true
        → PathBudget ip who (append "rl:auth:ip:" ip) cfg.rate_limit_ip_auth
    public_path :
        (who : Option Claims)
        → is_one_of public_paths path ≡ true
        → PathBudget ip who (append "rl:pub:ip:" ip) cfg.rate_limit_ip_public
    user :
        (c : Claims) (class : String) (limit : ℤ)
        → is_one_of login_paths path ≡ false
        → is_one_of public_paths path ≡ false
        → UserClass class limit
        → PathBudget ip (some c) (append "rl:" (append class (append ":user:" c.subject))) limit
    anonymous :
        (class : String) (limit : ℤ)
        → is_one_of login_paths path ≡ false
        → is_one_of public_paths path ≡ false
        → UserClass class limit
        → PathBudget ip none (append "rl:" (append class (append ":ip:" ip))) cfg.rate_limit_ip_api

  is_auth_path-any : is_auth_path path ≡ is_one_of login_paths path
  is_auth_path-any = ground arith

  is_public-any :
      (path == "/health" || path == "/api/v1/auth/public-keys") ≡ is_one_of public_paths path
  is_public-any = ground arith

  OwnClass : Type 0
  OwnClass =
      (class : String) × (limit : ℤ) × (endpoint_class path ≡ (class, true)) × UserClass class limit

  own_class :
      is_auth_path path ≡ false
      → (path == "/health" || path == "/api/v1/auth/public-keys") ≡ false
      → OwnClass
  unfolding OwnClass endpoint_class
  own_class auth common = elim (Bool-cases (has_prefix path "/v1/tiles/")) [
    | inl t ↦ (_, _, rw (auth, common, t, endpoint_class) refl, tiles t)
    | inr t ↦ elim (Bool-cases (path == "/api/v1/route/reroute")) [
      | inl same ↦ (
        _,
        _,
        rw (auth, common, t, same, endpoint_class) refl,
        reroute_path ((eq_iff path _).0 same),
      )
      | inr apart ↦
          let distinct : path ≢ "/api/v1/route/reroute" =
            λ e. true_not_false (sym ((eq_iff path _).1 e) ∙ apart) in
          elim (Bool-cases (has_prefix path "/api/v1/route")) [
            | inl r ↦ (
              _,
              _,
              rw (auth, common, t, apart, r, endpoint_class) refl,
              expensive distinct (inl r),
            )
            | inr r ↦ elim (Bool-cases (has_prefix path "/api/v1/search")) [
              | inl s ↦ (
                _,
                _,
                rw (auth, common, t, apart, r, s, endpoint_class) refl,
                expensive distinct (inr s),
              )
              | inr s ↦ (_, _, rw (auth, common, t, apart, r, s, endpoint_class) refl, other t r s)
            ]
          ]
    ]
  ]

  module _ (routes : List Route) (ip : String) where
    PathFound : Option Claims → String × Bool → Type 0
    PathFound who found =
        (k : String × ℤ) × (class_budget (rate_config cfg routes) found.0 found.1 who ip ≡ some k)
        × PathBudget ip who k.0 k.1

    own_class-PathFound :
        (who : Option Claims) (class : String) (limit : ℤ)
        → is_one_of login_paths path ≡ false
        → is_one_of public_paths path ≡ false
        → UserClass class limit
        → PathFound who (class, true)
    unfolding PathFound class_budget user_key ip_key rate_config
    own_class-PathFound (some c) _ _ l p (tiles t) = (_, refl, user c _ _ l p (tiles t))
    own_class-PathFound (some c) _ _ l p (reroute_path t) =
        (_, refl, user c _ _ l p (reroute_path t))
    own_class-PathFound (some c) _ _ l p (expensive t u) = (_, refl, user c _ _ l p (expensive t u))
    own_class-PathFound (some c) _ _ l p (other t u v) = (_, refl, user c _ _ l p (other t u v))
    own_class-PathFound none _ _ l p (tiles t) = (_, refl, anonymous _ _ l p (tiles t))
    own_class-PathFound none _ _ l p (reroute_path t) =
        (_, refl, anonymous _ _ l p (reroute_path t))
    own_class-PathFound none _ _ l p (expensive t u) = (_, refl, anonymous _ _ l p (expensive t u))
    own_class-PathFound none _ _ l p (other t u v) = (_, refl, anonymous _ _ l p (other t u v))

    endpoint_class-PathFound : (who : Option Claims) → PathFound who (endpoint_class path)
    unfolding PathFound endpoint_class class_budget rate_config OwnClass
    endpoint_class-PathFound who = elim (Bool-cases (is_auth_path path)) [
      | inl auth ↦ (_, rw (auth, endpoint_class) refl, login who (sym is_auth_path-any ∙ auth))
      | inr auth ↦ elim (Bool-cases (path == "/health" || path == "/api/v1/auth/public-keys")) [
        | inl common ↦ (
          _,
          rw (auth, common, endpoint_class) refl,
          public_path who (sym is_public-any ∙ common),
        )
        | inr common ↦
            let (class, limit, e, found) = own_class auth common in
            subst (PathFound who) (sym e) (
              own_class-PathFound who class limit (sym is_auth_path-any ∙ auth)
                (sym is_public-any ∙ common) found)
      ]
    ]

-- The key and the limit of a request to an extension route.
pub data ExtensionBudget (ext : ExtensionClass) (ip : String)
    : Option Claims → String → ℤ → Type 0 where
  anonymous_extension :
      ExtensionBudget ext ip none
        (append "rl:" (append (append "ext:" ext.name) (append ":ip:" ip)))
        ext.ip_per_min
  ip_only :
      (c : Claims)
      → ext.per_ip_only ≡ true
      → ExtensionBudget ext ip
          (some c)
          (append "rl:" (append (append "ext:" ext.name) (append ":ip:" ip)))
          ext.ip_per_min
  per_user :
      (c : Claims)
      → ext.per_ip_only ≡ false
      → ExtensionBudget ext ip
          (some c)
          (append "rl:" (append (append "ext:" ext.name) (append ":user:" c.subject)))
          ext.user_per_min

extension_budget-Extension :
    (ext : ExtensionClass) (ip : String) (who : Option Claims)
    → let k = extension_budget ext who ip in ExtensionBudget ext ip who k.0 k.1
unfolding extension_budget user_key ip_key
extension_budget-Extension ext ip none = anonymous_extension
extension_budget-Extension ext ip (some c) = elim (Bool-cases ext.per_ip_only) [
  | inl only ↦
      let found : extension_budget ext (some c) ip
          ≡ (append "rl:" (append (append "ext:" ext.name) (append ":ip:" ip)), ext.ip_per_min) =
        rw (only, extension_budget, ip_key) refl in
      subst (λ k. ExtensionBudget ext ip (some c) k.0 k.1) (sym found) (ip_only c only)
  | inr own ↦
      let found : extension_budget ext (some c) ip ≡ (
        append "rl:" (append (append "ext:" ext.name) (append ":user:" c.subject)),
        ext.user_per_min,
      ) =
        rw (own, extension_budget, user_key) refl in
      subst (λ k. ExtensionBudget ext ip (some c) k.0 k.1) (sym found) (per_user c own)
]

-- The key and the limit of a request, by its path, its caller and the settings.
abbrev pub HasBudget : Config → List Route → Request → String → ℤ → Type 0
HasBudget cfg routes r key limit =
    ((rate_class routes r ≡ none) × PathBudget cfg r.path r.ctx.orig_ip r.ctx.claims key limit)
    ⊎ ((ext : ExtensionClass) × (rate_class routes r ≡ some ext)
        × ExtensionBudget ext r.ctx.orig_ip r.ctx.claims key limit)

pub budget-HasBudget :
    (cfg : Config) (routes : List Route) (r : Request)
    → (k : String × ℤ) × (budget (rate_config cfg routes) r ≡ some k)
      × HasBudget cfg routes r k.0 k.1
unfolding budget rate_config PathFound
budget-HasBudget cfg routes r = elim (Option-cases (rate_class routes r)) [
  | inl e ↦
      let (k, b, h) = endpoint_class-PathFound cfg r.path routes r.ctx.orig_ip r.ctx.claims in
      (k, rw (e, budget) b, inl (e, h))
  | inr (ext, e) ↦ (
    extension_budget ext r.ctx.claims r.ctx.orig_ip,
    rw (e, budget) refl,
    inr (ext, e, extension_budget-Extension ext r.ctx.orig_ip r.ctx.claims),
  )
]
