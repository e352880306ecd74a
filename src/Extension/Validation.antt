-- ===== src/Extension/Validation.antt =====
-- What Validate accepts, stated without its loops and its error returns.
use swayrider_api.Base.{
  ℕ, ◌+◌, String, ◌≡◌, refl, sym, ◌≢◌, ◌↔◌, ◌⊎◌, inl, inr, true, false, Option, none, some, List,
  [], ◌∷◌, arith, ◌==◌, eq_iff, In, Bool-cases, is_pos,
}
use swayrider_api.Extension.{
  Route, Url, auth_none, auth_user, auth_admin, mem, endpoint, allowed_methods, Problem, Check, ok,
  fail, require, ◌>>◌, check_methods, url_ok, url_bare, validate_upstream, check_rest, check_route,
  validate_from, validate,
}
use swayrider_api.Extension.Paths.{IsResource, validate_path_iff}

pub mem_iff : (names : List String) (n : String) → (mem names n ≡ true) ↔ In n names
mem_iff [] n = (λ h. cc, λ h. absurd h)
mem_iff (x ∷ names) n =
    let (to, from) = mem_iff names n in
    (
      λ h. elim (Bool-cases (x == n)) [
        | inl e ↦ inl (sym ((eq_iff x n).0 e))
        | inr ne ↦ inr (to (ground arith))
      ],
      λ h. elim h [
        | inl e ↦ ground (arith, (eq_iff x n).1 (sym e))
        | inr m ↦ ground (arith, from m)
      ],
    )

not-mem_iff : (names : List String) (n : String) → (mem names n ≡ false) ↔ (¬ In n names)
not-mem_iff names n =
    let (to, from) = mem_iff names n in
    (
      λ h m. ground (arith, h, from m),
      λ h. elim (Bool-cases (mem names n)) [ inl t ↦ absurd (h (to t)) | inr f ↦ f ],
    )

-- The keys of one route's methods are allowed, new, and different from one another.
abbrev pub AreEndpoints : String → List String → List String → Type 0
AreEndpoints path [] used = Unit
AreEndpoints path (m ∷ ms) used =
    In m allowed_methods
    × ¬ In (endpoint path m) used
    × AreEndpoints path ms (endpoint path m ∷ used)

abbrev pub mark : String → List String → List String → List String
mark path [] used = used
mark path (m ∷ ms) used = mark path ms (endpoint path m ∷ used)

check_methods_iff :
    (path : String) (ms used : List String) (out : List String)
    → (check_methods path ms used ≡ ok out)
      ↔ (AreEndpoints path ms used × (mark path ms used ≡ out))
unfolding check_methods
check_methods_iff path [] used out = (λ h. (tt, ground arith), λ h. ground arith)
check_methods_iff path (m ∷ ms) used out =
    let (to, from) = check_methods_iff path ms (endpoint path m ∷ used) out in
    (
      λ h.
          let k = to (ground arith) in
          (
            (
              (mem_iff allowed_methods m).0 (ground arith),
              (not-mem_iff used (endpoint path m)).0 (ground arith),
              k.0,
            ),
            k.1,
          ),
      λ h. ground (
        arith,
        (mem_iff allowed_methods m).1 h.0.0,
        (not-mem_iff used (endpoint path m)).1 h.0.1,
        from (h.0.2, h.1),
      ),
    )

-- An http or https URL with a host and nothing else.
pub record IsBaseUrl (found : Option Url) : Type 0 where
  pub url : Url
  pub parsed : found ≡ some url
  pub scheme : (url.scheme ≡ "http") ⊎ (url.scheme ≡ "https")
  pub host : url.host ≢ ""
  pub path : (url.path ≡ "") ⊎ (url.path ≡ "/")
  pub query : url.raw_query ≡ ""
  pub fragment : url.fragment ≡ ""
  pub user : url.has_user ≡ false

module _ (url_parse : String → Option Url) where
  -- The conditions on the upstream, the authentication and the limits.
  pub record HasRest (r : Route) : Type 0 where
    pub upstream : IsBaseUrl (url_parse r.upstream)
    pub auth : (r.auth ≡ auth_none) ⊎ (r.auth ≡ auth_user) ⊎ (r.auth ≡ auth_admin)
    pub forward : r.forward_authorization ≡ true → r.auth ≢ auth_none
    pub body : is_pos r.max_body_bytes ≡ true
    pub timeout : is_pos r.timeout ≡ true
    pub ip_limit : is_pos r.rate_limit.ip_per_min ≡ true
    pub user_limit : r.auth ≢ auth_none → is_pos r.rate_limit.user_per_min ≡ true

  -- The conditions on a route that do not depend on the routes before it.
  pub record IsSafe (r : Route) : Type 0 where
    pub named : r.name ≢ ""
    pub path : IsResource r.path
    pub methods : r.methods ≢ []
    pub rest : HasRest r
    pub open rest use *

  -- Every route is safe, no name and no pair of method and path occurs twice.
  abbrev pub AreRoutes : List String → List String → List Route → Type 0
  AreRoutes names used [] = Unit
  AreRoutes names used (r ∷ rs) =
      IsSafe r
      × ¬ In r.name names
      × AreEndpoints r.path r.methods used
      × AreRoutes (r.name ∷ names) (mark r.path r.methods used) rs

  upstream_iff :
      (raw : String) → (validate_upstream url_parse raw ≡ ok tt) ↔ IsBaseUrl (url_parse raw)
  unfolding validate_upstream
  upstream_iff raw = (λ h. upstream_of (url_parse raw) h, λ b. upstream_from (url_parse raw) b)
    where
      upstream_of :
          (found : Option Url)
          → (require (url_ok url_parse found) Problem.upstream_url
              >> require (url_bare url_parse found) Problem.upstream_extra)
            ≡ ok tt
          → IsBaseUrl found
      upstream_of none h = cc
      upstream_of (some u) h = record {
        url = u;
        parsed = refl;
        scheme = ground (arith, eq_iff u.scheme "http", eq_iff u.scheme "https");
        host = ground (arith, eq_iff u.host "");
        path = ground (arith, eq_iff u.path "", eq_iff u.path "/");
        query = ground (arith, eq_iff u.raw_query "");
        fragment = ground (arith, eq_iff u.fragment "");
        user = ground arith;
      }

      upstream_from :
          (found : Option Url)
          → IsBaseUrl found
          → (require (url_ok url_parse found) Problem.upstream_url
              >> require (url_bare url_parse found) Problem.upstream_extra)
            ≡ ok tt
      upstream_from found b =
          let u = b.url in
          rw b.parsed (
            ground (
              arith,
              b.scheme,
              b.host,
              b.path,
              b.query,
              b.fragment,
              b.user,
              eq_iff u.scheme "http",
              eq_iff u.scheme "https",
              eq_iff u.host "",
              eq_iff u.path "",
              eq_iff u.path "/",
              eq_iff u.raw_query "",
              eq_iff u.fragment "",
            ))

  check_rest_iff : (r : Route) → (check_rest url_parse r ≡ ok tt) ↔ HasRest r
  unfolding check_rest
  check_rest_iff r =
      let (to, from) = upstream_iff r.upstream in
      (
        λ h. record {
          upstream = to (ground arith);
          auth =
              ground
                (arith, eq_iff r.auth auth_none, eq_iff r.auth auth_user, eq_iff r.auth auth_admin);
          forward = λ f e. ground (arith, f, eq_iff r.auth auth_none, e);
          body = ground arith;
          timeout = ground arith;
          ip_limit = ground arith;
          user_limit = λ ne. ground (arith, ne, eq_iff r.auth auth_none);
        },
        λ s. ground (
          arith,
          from s.upstream,
          s.auth,
          s.forward,
          s.body,
          s.timeout,
          s.ip_limit,
          s.user_limit,
          eq_iff r.auth auth_none,
          eq_iff r.auth auth_user,
          eq_iff r.auth auth_admin,
        ),
      )

  check_route_iff :
      (names used : List String) (r : Route) (out : List String)
      → (check_route url_parse names used r ≡ ok out) ↔ (
          IsSafe r
          × ¬ In r.name names
          × AreEndpoints r.path r.methods used
          × (mark r.path r.methods used ≡ out))
  unfolding check_route
  check_route_iff names used r out =
      let (path_to, path_from) = validate_path_iff r.path in
      let (ms_to, ms_from) = check_methods_iff r.path r.methods used out in
      let (rest_to, rest_from) = check_rest_iff r in
      (
        λ h.
            let (ends, marked) = ms_to (ground arith) in
            (
              record {
                named = ground (arith, eq_iff r.name "");
                path = path_to (ground arith);
                methods = ground arith;
                rest = rest_to (ground arith);
              },
              (not-mem_iff names r.name).0 (ground arith),
              ends,
              marked,
            ),
        λ h. ground (
          arith,
          h.0.named,
          eq_iff r.name "",
          (not-mem_iff names r.name).1 h.1,
          path_from h.0.path,
          h.0.methods,
          ms_from (h.2, h.3),
          rest_from h.0.rest,
        ),
      )

  check_route-fail :
      (names used : List String) (r : Route)
      → ((out : List String) × (check_route url_parse names used r ≡ ok out))
        ⊎ ((p : Problem) × (check_route url_parse names used r ≡ fail p))
  check_route-fail names used r = cases (check_route url_parse names used r)
    where
      cases :
          (c : Check (List String))
          → ((out : List String) × (c ≡ ok out)) ⊎ ((p : Problem) × (c ≡ fail p))
      cases (ok out) = inl (out, refl)
      cases (fail p) = inr (p, refl)

  validate_from_iff :
      (i : ℕ) (names used : List String) (rs : List Route)
      → (validate_from url_parse i names used rs ≡ none) ↔ AreRoutes names used rs
  unfolding validate_from
  validate_from_iff i names used [] = (λ h. tt, λ h. refl)
  validate_from_iff i names used (r ∷ rs) = elim (check_route-fail names used r) [
    | inr (p, e) ↦ (
      λ h. absurd (ground (arith, e)),
      λ h. let c = (check_route_iff names used r _).1 (h.0, h.1, h.2, refl) in absurd (cc (e, c)),
    )
    | inl (out, e) ↦
        let (to, from) = check_route_iff names used r out in
        let k = to e in
        let (tos, froms) = validate_from_iff (i + 1) (r.name ∷ names) out rs in
        (
          λ h. (k.0, k.1, k.2, rw k.3 (tos (ground (arith, e)))),
          λ h. rw (e, validate_from) (froms (rw k.3 at h.3)),
        )
  ]

-- Validate accepts a list of routes exactly when each is safe on its own, no two have the same
-- name, and no method and path is used twice, whatever the URL parser answers.
pub validate_iff :
    (url_parse : String → Option Url) (routes : List Route)
    → (validate url_parse routes ≡ none) ↔ AreRoutes url_parse [] [] routes
unfolding validate
validate_iff url_parse routes = validate_from_iff url_parse 0 [] [] routes
