-- ===== src/Extension.antt =====
-- internal/extension/extension.go: the operator's routes and their validation. A routes file is
-- its decoded list of `Route`; reading the file and the YAML are not modelled. url.Parse is the
-- parameter `url_parse`. An error is its route and the reason.
pub mod Paths
pub mod Validation
pub mod Routing
pub mod Upstream
pub mod Choice
pub mod Reserved
pub mod Registered
use swayrider_api.Base.{
  ℕ, zero, ◌+◌, String, append, Bool, true, false, not, ◌&&◌, ◌||◌, Option, none, some, List, [],
  ◌∷◌, ◌==◌, if◌then◌else◌, any, eqb, map, ◌⊎◌, inl, inr, len, ℤ, pos, is_pos, has_prefix, contains,
  contains_any,
}

pub record RateLimit : Type 0 where
  pub user_per_min : ℤ
  pub ip_per_min : ℤ

pub record Route : Type 0 where
  pub name : String
  pub path : String
  pub methods : List String
  pub upstream : String
  pub auth : String
  pub forward_authorization : Bool
  pub max_body_bytes : ℤ
  pub timeout : ℤ
  pub rate_limit : RateLimit

-- The fields of a url.URL that the validation reads.
pub record Url : Type 0 where
  pub scheme : String
  pub host : String
  pub path : String
  pub raw_query : String
  pub fragment : String
  pub has_user : Bool

abbrev pub auth_none : String
auth_none = "none"

abbrev pub auth_user : String
auth_user = "user"

abbrev pub auth_admin : String
auth_admin = "admin"

abbrev pub base : String
base = "/api/v1/"

unfoldable pub reserved_prefixes : List String
reserved_prefixes =
    "/api/v1/auth" ∷ "/api/v1/route" ∷ "/api/v1/search" ∷ "/api/v1/region" ∷ "/v1/tiles" ∷ "/web"
    ∷ "/health" ∷ "/api/openapi.yaml" ∷ []

abbrev pub mem : List String → String → Bool
mem names name = any (λ n. n == name) names

unfoldable pub allowed_methods : List String
allowed_methods = "GET" ∷ "POST" ∷ "PUT" ∷ "DELETE" ∷ []

-- The reasons for which Validate refuses a route.
pub data Problem : Type 0 where
  name_required duplicate_name path_base path_characters path_reserved no_methods : Problem
  method_not_allowed endpoint_used upstream_url upstream_extra bad_auth : Problem
  forward_without_auth no_max_body bad_timeout no_ip_limit no_user_limit : Problem

pub data Check (A : Type 0) : Type 0 where
  ok : A → Check A
  fail : Problem → Check A

infixl 5 ◌>>=◌ ◌>>◌
abbrev pub ◌>>=◌ : {A B : Type 0} → Check A → (A → Check B) → Check B
ok a >>= f = f a
fail p >>= f = fail p

abbrev pub ◌>>◌ : {B : Type 0} → Check (Unit {0}) → Check B → Check B
m >> k = m >>= λ _. k

abbrev pub require : Bool → Problem → Check (Unit {0})
require true p = ok tt
require false p = fail p

-- p == reserved || strings.HasPrefix(p, reserved+"/")
abbrev pub is_under : String → String → Bool
is_under p reserved = p == reserved || has_prefix p (append reserved "/")

unfoldable pub validate_path : String → Check (Unit {0})
unfolding reserved_prefixes
validate_path p = do
  require (has_prefix p base && not (eqb (len p) (len base))) path_base
  require (not (contains_any p " ?#{}*" || contains p ".." || contains p "//")) path_characters
  require (not (any (is_under p) reserved_prefixes)) path_reserved

-- m + " " + r.Path, the pattern that goes onto the mux and the key of `patterns`
abbrev pub endpoint : String → String → String
endpoint path m = append m (append " " path)

-- The loop over r.Methods; `used` holds the keys of `patterns`.
unfoldable pub check_methods : String → List String → List String → Check (List String)
unfolding allowed_methods
check_methods path [] used = ok used
check_methods path (m ∷ ms) used =
    if mem allowed_methods m
    then if mem used (endpoint path m)
      then fail endpoint_used
      else check_methods path ms (endpoint path m ∷ used)
    else fail method_not_allowed

abbrev pub no_list : List String → Bool
no_list [] = true
no_list (x ∷ xs) = false

-- The route, by its place from 1 and its name, and what is wrong with it.
pub record Refusal : Type 0 where
  pub number : ℕ
  pub name : String
  pub problem : Problem

module _ (url_parse : String → Option Url) where
  -- the conditions on the parsed URL
  abbrev pub url_ok : Option Url → Bool
  url_ok none = false
  url_ok (some u) = (u.scheme == "http" || u.scheme == "https") && not (u.host == "")

  abbrev pub url_bare : Option Url → Bool
  url_bare none = true
  url_bare (some u) =
      (u.path == "" || u.path == "/") && u.raw_query == "" && u.fragment == "" && not u.has_user

  unfoldable pub validate_upstream : String → Check (Unit {0})
  validate_upstream raw = do
    require (url_ok (url_parse raw)) upstream_url
    require (url_bare (url_parse raw)) upstream_extra

  -- The checks after the methods.
  unfoldable pub check_rest : Route → Check (Unit {0})
  check_rest r = do
    validate_upstream r.upstream
    require (r.auth == auth_none || r.auth == auth_user || r.auth == auth_admin) bad_auth
    require (not (r.forward_authorization && r.auth == auth_none)) forward_without_auth
    require (is_pos r.max_body_bytes) no_max_body
    require (is_pos r.timeout) bad_timeout
    require (is_pos r.rate_limit.ip_per_min) no_ip_limit
    require (r.auth == auth_none || is_pos r.rate_limit.user_per_min) no_user_limit

  -- One round of the loop of Validate: the new `patterns`, or the problem.
  unfoldable pub check_route : List String → List String → Route → Check (List String)
  check_route names used r = do
    require (not (r.name == "")) name_required
    require (not (mem names r.name)) duplicate_name
    validate_path r.path
    require (not (no_list r.methods)) no_methods
    used' ← check_methods r.path r.methods used
    check_rest r
    ok used'

  unfoldable pub validate_from : ℕ → List String → List String → List Route → Option Refusal
  validate_from i names used [] = none
  validate_from i names used (r ∷ rs) = elim (check_route names used r) [
    | fail p ↦ some (record { number = i + 1; name = r.name; problem = p })
    | ok used' ↦ validate_from (i + 1) (r.name ∷ names) used' rs
  ]

  -- `none` is Go's nil error.
  unfoldable pub validate : List Route → Option Refusal
  validate routes = validate_from 0 [] [] routes

  -- Load after the file is decoded: a zero timeout becomes 30 s (in nanoseconds).
  abbrev pub with_timeout : Route → Route
  with_timeout r = elim r.timeout [ pos zero ↦ record r { timeout = pos 30000000000 } | _ ↦ r ]

  unfoldable pub load : List Route → Refusal ⊎ List Route
  load decoded =
      let routes = map with_timeout decoded in
      elim (validate routes) [ some refusal ↦ inl refusal | none ↦ inr routes ]
