-- ===== src/Extension/Routing.antt =====
-- internal/extension/extension.go: which route serves a request, and the limits that it brings.
use swayrider_api.Base.{
  String, Bool, ◌&&◌, Option, none, some, List, [], ◌∷◌, ◌++◌, map, ◌==◌, if◌then◌else◌, any, ltb,
  ℤ, has_prefix, ends_with, len,
}
use swayrider_api.Http.{Request}
use swayrider_api.Extension.{Route, auth_none, endpoint}

unfoldable pub matches_path : String → String → Bool
matches_path pattern path =
    if ends_with pattern b'/' then has_prefix path pattern else path == pattern

abbrev pub has_method : List String → String → Bool
has_method methods m = any (λ x. x == m) methods

unfoldable pub serves : Route → Request → Bool
unfolding matches_path
serves route r = matches_path route.path r.path && has_method route.methods r.method

-- One round of the loop of Match; `best` is none while `found` is false.
unfoldable pub better : Option Route → Route → Option Route
better none route = some route
better (some best) route = if ltb (len best.path) (len route.path) then some route else some best

unfoldable pub match_from : Option Route → List Route → Request → Option Route
match_from best [] r = best
match_from best (route ∷ routes) r =
    match_from (if serves route r then better best route else best) routes r

unfoldable pub match : List Route → Request → Option Route
match routes r = match_from none routes r

-- the override of middleware.BodyLimitWith
unfoldable pub body_limit : List Route → Request → Option ℤ
body_limit routes r = elim (match routes r) [ none ↦ none | some route ↦ some route.max_body_bytes ]

-- middleware.ExtensionClass
pub record ExtensionClass : Type 0 where
  pub name : String
  pub user_per_min : ℤ
  pub ip_per_min : ℤ
  pub per_ip_only : Bool

unfoldable pub class_of : Route → ExtensionClass
class_of route = record {
  name = route.name;
  user_per_min = route.rate_limit.user_per_min;
  ip_per_min = route.rate_limit.ip_per_min;
  per_ip_only = route.auth == auth_none;
}

unfoldable pub rate_class : List Route → Request → Option ExtensionClass
unfolding class_of
rate_class routes r = elim (match routes r) [ none ↦ none | some route ↦ some (class_of route) ]

unfoldable pub names : List Route → List String
names routes = map (λ (r : Route). r.name) routes

-- The patterns that Register puts onto the mux, with the route that answers them, in order.
abbrev pub handle_all : Route → List String → List (String × Route)
handle_all route methods = map (λ m. (endpoint route.path m, route)) methods

unfoldable pub register : List Route → List (String × Route)
register [] = []
register (route ∷ routes) = handle_all route route.methods ++ register routes
