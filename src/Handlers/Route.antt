-- ===== src/Handlers/Route.antt =====
-- internal/handlers/route.go and reroute.go: the requests, the queries to routerservice and the
-- workers' functions. F is float64. encoding/json, routerclient and the service token are parameters.
use swayrider_api.Base.{String, Bool, Option, none, some, List, [], map, ◌⊎◌, inl, inr, ℤ, pos}
use swayrider_api.Grpc.{GoError}
use swayrider_api.Queue.{Job}
use swayrider_api.Queue.Results.{TripResult}
use swayrider_api.Handlers.Upstream.{Metadata, user_metadata, Breaker, map_result, then_result}
use swayrider_api.Handlers.Trip.{to_trip_result}
use swayrider_api.Handlers.Trip.Proto.{Trip}

pub record RouteCoord (F : Type 0) : Type 0 where
  pub lat : F
  pub lon : F

pub record RouteWaypoint (F : Type 0) : Type 0 where
  pub lat : F
  pub lon : F
  pub kind : String

pub record RouteOptions (F : Type 0) : Type 0 where
  pub avoid_toll_roads : Bool
  pub avoid_highways : Bool
  pub avoid_ferries : Bool
  pub scenic_preference : F
  pub highway_avoidance : F
  pub toll_avoidance : F
  pub unpaved_handling : String

pub record RouteRequest (F : Type 0) : Type 0 where
  pub from : RouteCoord F
  pub to : RouteCoord F
  pub waypoints : List (RouteWaypoint F)
  pub vehicle : String
  pub unit : String
  pub language : String
  pub options : RouteOptions F

pub record RerouteRequest (F : Type 0) : Type 0 where
  pub route : RouteRequest F
  pub from_heading : Option ℤ
  pub from_heading_tolerance : Option ℤ
  pub exclusions : List (List (RouteCoord F))

-- routerclient's query and its parts, with the fields that the code sets.
pub record Coordinate (F : Type 0) : Type 0 where
  pub latitude : F
  pub longitude : F

pub record Waypoint (F : Type 0) : Type 0 where
  pub coordinate : Coordinate F
  pub kind : String

pub record StandardRoutingOptions (F : Type 0) : Type 0 where
  pub avoid_toll_roads : Bool
  pub avoid_highways : Bool
  pub avoid_ferries : Bool
  pub scenic_preference : F
  pub highway_avoidance : F
  pub toll_avoidance : F
  pub unpaved_handling : String

pub record RouteQuery (F : Type 0) : Type 0 where
  pub from : Coordinate F
  pub to : Coordinate F
  pub waypoints : List (Waypoint F)
  pub vehicle : String
  pub unit : String
  pub language : String
  pub options : StandardRoutingOptions F
  pub from_heading : Option ℤ
  pub from_heading_tolerance : Option ℤ
  pub exclude_polygons : List (List (Coordinate F))

-- RouteRaw and RerouteRaw, with the Trip of the response.
pub record RouterClient (F T W : Type 0) : Type 0 where
  pub route_raw : Metadata → String → RouteQuery F → W → (GoError ⊎ Trip F T) × W
  pub reroute_raw : Metadata → String → RouteQuery F → W → (GoError ⊎ Trip F T) × W

pub record RouteCodec (F : Type 0) : Type 0 where
  pub unmarshal_route : String → GoError ⊎ RouteRequest F
  pub unmarshal_reroute : String → GoError ⊎ RerouteRequest F
  pub marshal_trip : TripResult F → GoError ⊎ String

abbrev pub default_from_heading_tolerance : ℤ
default_from_heading_tolerance = pos 45

module _ {F : Type 0} where
  abbrev pub to_coordinate : RouteCoord F → Coordinate F
  to_coordinate c = record { latitude = c.lat; longitude = c.lon }

  abbrev pub to_waypoint : RouteWaypoint F → Waypoint F
  to_waypoint wp = record {
    coordinate = record { latitude = wp.lat; longitude = wp.lon };
    kind = wp.kind;
  }

  abbrev pub to_options : RouteOptions F → StandardRoutingOptions F
  to_options o = record {
    avoid_toll_roads = o.avoid_toll_roads;
    avoid_highways = o.avoid_highways;
    avoid_ferries = o.avoid_ferries;
    scenic_preference = o.scenic_preference;
    highway_avoidance = o.highway_avoidance;
    toll_avoidance = o.toll_avoidance;
    unpaved_handling = o.unpaved_handling;
  }

  -- The query of NewRouteProcessFn.
  unfoldable pub route_query : RouteRequest F → RouteQuery F
  route_query req = record {
    from = to_coordinate req.from;
    to = to_coordinate req.to;
    waypoints = map to_waypoint req.waypoints;
    vehicle = req.vehicle;
    unit = req.unit;
    language = req.language;
    options = to_options req.options;
    from_heading = none;
    from_heading_tolerance = none;
    exclude_polygons = [];
  }

  -- RerouteRequest.routeQuery
  unfoldable pub reroute_query : RerouteRequest F → RouteQuery F
  reroute_query r = record {
    from = to_coordinate r.route.from;
    to = to_coordinate r.route.to;
    waypoints = map to_waypoint r.route.waypoints;
    vehicle = r.route.vehicle;
    unit = r.route.unit;
    language = r.route.language;
    options = to_options r.route.options;
    from_heading = r.from_heading;
    from_heading_tolerance = elim r.from_heading [
      | none ↦ none
      | some heading ↦ some (elim r.from_heading_tolerance [
        | none ↦ default_from_heading_tolerance
        | some tolerance ↦ tolerance
      ])
    ];
    exclude_polygons = map (map to_coordinate) r.exclusions;
  }

module _ {F T W : Type 0} (codec : RouteCodec F) (print_time : T → String)
    (client : RouterClient F T W) (token : String) (breaker : Breaker W) where
  -- A call through the breaker, its trip as a result, and the JSON of that.
  unfoldable pub run_trip : (W → (GoError ⊎ Trip F T) × W) → W → (GoError ⊎ String) × W
  run_trip call w =
      let r =
        breaker.execute "routerservice"
          (λ w. let a = call w in (map_result (to_trip_result print_time) a.0, a.1)) w in
      (then_result r.0 codec.marshal_trip, r.1)

  -- NewRouteProcessFn
  unfoldable pub route_process : Job → W → (GoError ⊎ String) × W
  route_process job w = elim (codec.unmarshal_route job.payload) [
    | inl err ↦ (inl err, w)
    | inr req ↦ run_trip (client.route_raw (user_metadata job) token (route_query req)) w
  ]

  -- NewRerouteProcessFn
  unfoldable pub reroute_process : Job → W → (GoError ⊎ String) × W
  reroute_process job w = elim (codec.unmarshal_reroute job.payload) [
    | inl err ↦ (inl err, w)
    | inr req ↦ run_trip (client.reroute_raw (user_metadata job) token (reroute_query req)) w
  ]
