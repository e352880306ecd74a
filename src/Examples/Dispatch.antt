-- ===== src/Examples/Dispatch.antt =====
-- A request for an extension route on the full mux (internal/server, internal/extension).
use swayrider_api.Base.{
  ℕ, String, ◌≡◌, refl, ◌≢◌, true, Option, none, some, [], ◌++◌, has_prefix, ends_with, len, All,
  All-intro, contains, if◌then◌else◌, Bool, not, all, arith,
}
use swayrider_api.Http.{Handler}
use swayrider_api.Extension.{Route}
use swayrider_api.Extension.Routing.{
  match, match_from, better, serves, matches_path, body_limit, rate_class, class_of,
}
use swayrider_api.Extension.Registered.{registered, register_on}
use swayrider_api.Server.{Entry, routes}
use swayrider_api.Server.Guards.{all-In}
use swayrider_api.Server.Run.{register_routes}
use swayrider_api.Server.Mux.{Mux, pattern, handle, dispatch, own_patterns, extension_patterns}
use swayrider_api.Server.Mux.Plain.{dispatch-match}
use swayrider_api.Examples.Extensions.{parse, route, two_routes, two_routes-Valid, request_to}
use swayrider_api.Examples.Gateway.{mux}

abbrev handlers : String → Handler ℕ
handlers name = mux

abbrev ext_handler : Route → Handler ℕ
ext_handler x = mux

abbrev own_mux : Mux ℕ
own_mux = own_patterns handlers routes

abbrev full_mux : Mux ℕ
full_mux = own_mux ++ extension_patterns ext_handler two_routes

-- A mux that reads the paths as they stand, but for those with an escape
abbrev read_path : String → Option String
read_path p = if contains p "%" then none else some p

abbrev is_plain : Entry → Bool
is_plain e = not (contains e.path "%")

all_plain : all is_plain routes ≡ true
unfolding routes contains has_prefix
all_plain = refl

routes-plain : All (λ (e : Entry). read_path e.path ≡ some e.path) routes
routes-plain =
    All-intro _ routes
      (λ e i. let plain = all-In is_plain routes e all_plain i in ground (arith, plain))

two_routes-plain : All (λ (x : Route). read_path x.path ≡ some x.path) two_routes
unfolding contains has_prefix
two_routes-plain = (refl, (refl, tt))

get-not_head : ◌≢◌ {A = String} "GET" "HEAD"
get-not_head e = cc

near-matched :
    match two_routes (request_to "/api/v1/poi/near") ≡ some (route "poi_near" "/api/v1/poi/near")
unfolding match match_from better serves matches_path has_prefix ends_with len
near-matched = refl

dispatch-match_example :
    (register_routes (handle read_path) handlers routes [] ≡ some own_mux)
    × (register_on (handle read_path) ext_handler two_routes own_mux ≡ registered full_mux)
    × (dispatch full_mux (request_to "/api/v1/poi/near")
        ≡ some
            (pattern "GET" "/api/v1/poi/near" (ext_handler (route "poi_near" "/api/v1/poi/near"))))
    × (body_limit two_routes (request_to "/api/v1/poi/near")
        ≡ some (route "poi_near" "/api/v1/poi/near").max_body_bytes)
    × (rate_class two_routes (request_to "/api/v1/poi/near")
        ≡ some (class_of (route "poi_near" "/api/v1/poi/near")))
dispatch-match_example =
    dispatch-match read_path parse handlers ext_handler two_routes two_routes-Valid routes-plain
      two_routes-plain (request_to "/api/v1/poi/near") (route "poi_near" "/api/v1/poi/near")
      near-matched get-not_head
