-- ===== src/Handlers/Reroute/Bounded.antt =====
-- internal/handlers/reroute.go: what a rerouting job asks of routerservice.
use swayrider_api.Base.{
  ℕ, suc, String, ◌≡◌, refl, ap, ◌⊎◌, inr, ◌≤◌, Option, none, some, List, [], ◌∷◌, map, length, All,
  ℤ, pos, arith,
}
use swayrider_api.Grpc.{GoError}
use swayrider_api.Queue.{Job}
use swayrider_api.Queue.Results.{TripResult}
use swayrider_api.Handlers.Upstream.{user_metadata, Breaker, IsClosed, map_result, then_result}
use swayrider_api.Handlers.Trip.{to_trip_result}
use swayrider_api.Handlers.Route.{
  RouteCoord, RerouteRequest, RouteQuery, RouterClient, RouteCodec, Coordinate, to_coordinate,
  reroute_query, run_trip, reroute_process,
}
use swayrider_api.Handlers.Reroute.{Floats, validate}
use swayrider_api.Handlers.Reroute.Accepted.{IsWithin, IsRing, IsAccepted, validate-IsAccepted}

length-map : {A B : Type 0} (f : A → B) (l : List A) → length (map f l) ≡ length l
length-map f [] = refl
length-map f (a ∷ l) = ap suc (length-map f l)

-- A direction with its tolerance, or neither.
abbrev pub HasDirection : Option ℤ → Option ℤ → Type 0
HasDirection none none = Unit
HasDirection (some h) (some t) = IsWithin 0 359 (some h) × IsWithin 1 180 (some t)
HasDirection none (some t) = ⊥
HasDirection (some h) none = ⊥

abbrev pub IsPolygon : {F : Type 0} → List (Coordinate F) → Type 0
IsPolygon polygon = (3 ≤ length polygon) × (length polygon ≤ 40)

pub record IsBounded {F : Type 0} (q : RouteQuery F) : Type 0 where
  pub direction : HasDirection q.from_heading q.from_heading_tolerance
  pub few : length q.exclude_polygons ≤ 6
  pub polygons : All IsPolygon q.exclude_polygons

module _ {F : Type 0} (floats : Floats F) where
  polygons_of :
      (rings : List (List (RouteCoord F)))
      → All (IsRing floats) rings
      → All IsPolygon (map (map to_coordinate) rings)
  polygons_of [] h = tt
  polygons_of (ring ∷ rings) ((least, most, fine, narrow), h) =
      (rw (length-map to_coordinate ring) (least, most), polygons_of rings h)

  direction_of :
      (heading tolerance : Option ℤ)
      → IsWithin 0 359 heading
      → IsWithin 1 180 tolerance
      → HasDirection heading (elim heading [
        | none ↦ none
        | some h ↦ some (elim tolerance [ none ↦ pos 45 | some t ↦ t ])
      ])
  direction_of none tolerance h k = tt
  direction_of (some n) none h k = (h, (omega arith, omega arith))
  direction_of (some n) (some t) h k = (h, k)

  reroute_query-IsBounded :
      (r : RerouteRequest F) → IsAccepted floats r → IsBounded (reroute_query r)
  unfolding reroute_query
  reroute_query-IsBounded r h = record {
    direction = direction_of r.from_heading r.from_heading_tolerance h.heading h.tolerance;
    few = rw (length-map (map to_coordinate) r.exclusions) h.few;
    polygons = polygons_of r.exclusions h.rings;
  }

  module _ {T W : Type 0} (print : ℕ → String) (codec : RouteCodec F) (print_time : T → String)
      (client : RouterClient F T W) (token : String) (breaker : Breaker W) where
    -- A job whose payload is read as a request that validate accepts becomes, behind a closed breaker,
    -- one call of routerservice for the job's user, whose trip or error is delivered. Its query has a
    -- direction of 0 to 359 degrees with a tolerance of 1 to 180, or neither, and at most six polygons
    -- of 3 to 40 points.
    pub reroute_process-IsBounded :
        (req : RerouteRequest F) (job : Job) (w : W)
        → IsClosed breaker "routerservice" w
        → validate floats print req ≡ none
        → codec.unmarshal_reroute job.payload ≡ inr req
        → IsBounded (reroute_query req)
          × (reroute_process codec print_time client token breaker job w ≡ (
              let a = client.reroute_raw (user_metadata job) token (reroute_query req) w in
              (then_result (map_result (to_trip_result print_time) a.0) codec.marshal_trip, a.1)))
    unfolding reroute_process run_trip
    reroute_process-IsBounded req job w closed accepted m = (
      reroute_query-IsBounded req ((validate-IsAccepted floats print req).0 accepted),
      rw (reroute_process, m)
          (ap (λ (a : (GoError ⊎ TripResult F) × W). (then_result a.0 codec.marshal_trip, a.1))
            (closed _ _)),
    )
