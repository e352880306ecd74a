-- ===== src/Handlers/Regions.antt =====
-- internal/handlers/region.go: the handlers that ask regionservice with the gateway's own token. F is
-- float64, R is RegionList and B is BorderCrossing of regionclient. regionclient, encoding/json and
-- strings.ToLower are parameters.
pub mod Failing
use swayrider_api.Base.{String, Bool, List, [], ◌∷◌, map, ◌⊎◌, ℤ, ◌==◌, if◌then◌else◌}
use swayrider_api.Http.{Request, Response, Handler}
use swayrider_api.Grpc.{GoError}
use swayrider_api.Handlers.Stream.{Decoded}
use swayrider_api.Handlers.Answers.{Env, strings, groups, write_json, answer, with_body}
use swayrider_api.Handlers.Route.{Coordinate}

-- The lat and lon of a body.
pub record Point (F : Type 0) : Type 0 where
  pub lat : F
  pub lon : F

pub record PointRequest (F : Type 0) : Type 0 where
  pub location : Point F
  pub include_extended : Bool

pub record BoxRequest (F : Type 0) : Type 0 where
  pub bottom_left : Point F
  pub top_right : Point F
  pub include_extended : Bool

pub record RadiusRequest (F : Type 0) : Type 0 where
  pub location : Point F
  pub radius_km : F
  pub include_extended : Bool

pub record CrossingRequest (F : Type 0) : Type 0 where
  pub from_region : String
  pub to_region : String
  pub from_location : Point F
  pub to_location : Point F
  pub limit : ℤ
  pub kind : String
  pub road_type_order : List String
  pub road_type_delta : F
  pub drop_distance : F

pub record PathRequest : Type 0 where
  pub from_region : String
  pub to_region : String

pub record RouteRegionsRequest (F : Type 0) : Type 0 where
  pub waypoints : List (Point F)
  pub width_km : F

-- regionclient.BoundingBox and the configurations of FindCrossingLocations
pub record BoundingBox (F : Type 0) : Type 0 where
  pub bottom_left : Coordinate F
  pub top_right : Coordinate F

pub record CrossingDefinition (F : Type 0) : Type 0 where
  pub road_type_order : List String
  pub road_type_delta : F
  pub drop_distance : F

pub data CrossingConfig (F : Type 0) : Type 0 where
  simple : CrossingDefinition F → CrossingConfig F
  advanced : List (CrossingDefinition F) → CrossingConfig F

-- RegionClient; the first text is the token.
pub record RegionClient (F R B S : Type 0) : Type 0 where
  pub search_point : String → Coordinate F → Bool → S → (GoError ⊎ R) × S
  pub search_box : String → BoundingBox F → Bool → S → (GoError ⊎ R) × S
  pub search_radius : String → Coordinate F → F → Bool → S → (GoError ⊎ R) × S
  pub find_crossing_locations :
      String
      → String
      → String
      → Coordinate F
      → Coordinate F
      → CrossingConfig F
      → ℤ
      → S
      → (GoError ⊎ List B) × S
  pub find_region_path : String → String → String → S → (GoError ⊎ List String) × S
  pub find_route_region_paths :
      String → List (Coordinate F) → F → S → (GoError ⊎ List (List String)) × S

pub record RegionCodec (F R B : Type 0) : Type 0 where
  pub point : Request → Decoded (PointRequest F)
  pub box : Request → Decoded (BoxRequest F)
  pub radius : Request → Decoded (RadiusRequest F)
  pub crossing : Request → Decoded (CrossingRequest F)
  pub path : Request → Decoded PathRequest
  pub route_regions : Request → Decoded (RouteRegionsRequest F)
  pub encode_regions : R → String
  pub encode_crossings : List B → String
  pub to_lower : String → String

-- writeJSON of a struct or a slice, with its JSON
unfoldable pub json_answer : String → Response
json_answer body = record {
  status = 200;
  headers = ("Content-Type", "application/json") ∷ [];
  body = body;
}

abbrev pub coordinate_of : {F : Type 0} → Point F → Coordinate F
coordinate_of p = record { latitude = p.lat; longitude = p.lon }

module _ {F R B S : Type 0} (env : Env) (codec : RegionCodec F R B) (client : RegionClient F R B S)
    (token : String) where
  unfoldable pub build_crossing_config : String → List String → F → F → CrossingConfig F
  build_crossing_config kind road_types delta drop =
      let definition : CrossingDefinition F = record {
        road_type_order = map codec.to_lower road_types;
        road_type_delta = delta;
        drop_distance = drop;
      } in
      if kind == "advanced" then advanced (definition ∷ []) else simple definition

  unfoldable pub search_point : Handler S
  search_point = with_body codec.point λ req r s.
      answer env (client.search_point token (coordinate_of req.location) req.include_extended s)
        (λ result. json_answer (codec.encode_regions result))

  unfoldable pub search_box : Handler S
  search_box = with_body codec.box λ req r s.
      answer env
        (client.search_box token
          (record {
            bottom_left = coordinate_of req.bottom_left;
            top_right = coordinate_of req.top_right;
          })
          req.include_extended s)
        (λ result. json_answer (codec.encode_regions result))

  unfoldable pub search_radius : Handler S
  search_radius = with_body codec.radius λ req r s.
      answer env
        (client.search_radius token (coordinate_of req.location) req.radius_km req.include_extended
          s)
        (λ result. json_answer (codec.encode_regions result))

  unfoldable pub find_crossing_locations : Handler S
  find_crossing_locations = with_body codec.crossing λ req r s.
      answer env
        (client.find_crossing_locations token req.from_region req.to_region
          (coordinate_of req.from_location) (coordinate_of req.to_location)
          (build_crossing_config req.kind req.road_type_order req.road_type_delta req.drop_distance)
          req.limit s)
        (λ crossings. json_answer (codec.encode_crossings crossings))

  unfoldable pub find_region_path : Handler S
  find_region_path = with_body codec.path λ req r s.
      answer env (client.find_region_path token req.from_region req.to_region s)
        (λ path. write_json env 200 (("path", strings path) ∷ []) [])

  unfoldable pub find_route_region_paths : Handler S
  find_route_region_paths = with_body codec.route_regions λ req r s.
      answer env
        (client.find_route_region_paths token (map coordinate_of req.waypoints) req.width_km s)
        (λ paths. write_json env 200 (("paths", groups paths) ∷ []) [])
