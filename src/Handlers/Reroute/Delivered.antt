-- ===== src/Handlers/Reroute/Delivered.antt =====
-- From a request of POST /api/v1/route/reroute to its result: the handler (internal/handlers/reroute.go),
-- the stream and its worker (internal/queue) with the function of the rerouting pool of
-- cmd/swayrider-api/main.go, and the hub (internal/sse).
use swayrider_api.Base.{String, ◌⊎◌, inl, inr, Option, none, some, [], ◌∷◌, pos, ℤ, map}
use swayrider_api.Grpc.{GoError}
use swayrider_api.Http.{Claims}
use swayrider_api.Queue.{Job, Processed, done, failed}
use swayrider_api.Handlers.Stream.Delivered.{level_of, admin_flag, verified_flag}
use swayrider_api.Handlers.Upstream.{Metadata, Breaker, map_result, then_result}
use swayrider_api.Handlers.Trip.{to_trip_result}
use swayrider_api.Handlers.Route.{
  RouteCoord, Coordinate, RouteQuery, RerouteRequest, RouterClient, RouteCodec, reroute_process,
}

-- A process function's result, as the worker reads it
abbrev pub processed : GoError ⊎ String → Processed
processed (inl err) = failed err
processed (inr json) = done json

-- The metadata of a call for the user of the claims
abbrev pub caller : Claims → Metadata
caller claims =
    ("x-user-id", claims.subject)
    ∷ ("x-account-level", level_of claims.user)
    ∷ ("x-is-admin", admin_flag claims.user)
    ∷ ("x-user-verified", verified_flag claims.email_verified)
    ∷ []

-- The tolerance of a heading, 45 degrees where the request has none; no heading has no tolerance.
abbrev pub tolerance_of : Option ℤ → Option ℤ → Option ℤ
tolerance_of none tolerance = none
tolerance_of (some heading) none = some (pos 45)
tolerance_of (some heading) (some tolerance) = some tolerance

module _ {F : Type 0} where
  abbrev pub point : RouteCoord F → Coordinate F
  point c = record { latitude = c.lat; longitude = c.lon }

  -- The query that a request asks for
  abbrev pub asked : RerouteRequest F → RouteQuery F
  asked req = record {
    from = record { latitude = req.route.from.lat; longitude = req.route.from.lon };
    to = record { latitude = req.route.to.lat; longitude = req.route.to.lon };
    waypoints =
        map
          (λ wp. record {
            coordinate = record { latitude = wp.lat; longitude = wp.lon };
            kind = wp.kind;
          })
          req.route.waypoints;
    vehicle = req.route.vehicle;
    unit = req.route.unit;
    language = req.route.language;
    options = record {
      avoid_toll_roads = req.route.options.avoid_toll_roads;
      avoid_highways = req.route.options.avoid_highways;
      avoid_ferries = req.route.options.avoid_ferries;
      scenic_preference = req.route.options.scenic_preference;
      highway_avoidance = req.route.options.highway_avoidance;
      toll_avoidance = req.route.options.toll_avoidance;
      unpaved_handling = req.route.options.unpaved_handling;
    };
    from_heading = req.from_heading;
    from_heading_tolerance = tolerance_of req.from_heading req.from_heading_tolerance;
    exclude_polygons = map (map point) req.exclusions;
  }

module _ {F T W : Type 0} (route_codec : RouteCodec F) (print_time : T → String)
    (client : RouterClient F T W) (token : String) (breaker : Breaker W) (w : W) where
  -- The rerouting pool's function, where the world is `w` when a worker runs the job
  abbrev pub rerouting : Job → Processed
  rerouting job = processed (reroute_process route_codec print_time client token breaker job w).0

  -- What routerservice answers to the request for the user, as JSON or as the error
  abbrev pub routed : Claims → RerouteRequest F → GoError ⊎ String
  routed claims req =
      then_result
        (map_result (to_trip_result print_time)
          (client.reroute_raw (caller claims) token (asked req) w).0)
        route_codec.marshal_trip
