-- ===== src/Examples/Reroutes.antt =====
-- A reroute with a heading and one exclusion (internal/handlers/reroute.go), over whole degrees, the
-- trip that it gets (internal/handlers/route.go), and the counts of a breaker.
use swayrider_api.Base.{
  ℕ, suc, ◌*◌, ◌≤◌, String, ◌≡◌, refl, ◌⊎◌, inl, inr, ◌↔◌, Bool, true, false, not, Option, none,
  some, [], ◌∷◌, ℤ, pos, negsuc, leb, arith, Bool-cases, ◌==◌, if◌then◌else◌,
}
use swayrider_api.Http.{Request, Response, Claims, no_context}
use swayrider_api.Queue.{stream_rerouting}
use swayrider_api.Handlers.Stream.{Decoded, decoded, stream_job}
use swayrider_api.Handlers.Upstream.{Breaker, IsClosed}
use swayrider_api.Handlers.Trip.{to_trip_result}
use swayrider_api.Handlers.Trip.Proto.{Trip, imperial, through, left_side, Summary}
use swayrider_api.Handlers.Trip.Recovered.{trip_of, named_trip, trip_of-to_trip_result}
use swayrider_api.Handlers.Route.{RouteCoord, RerouteRequest, RouterClient, RouteCodec}
use swayrider_api.Handlers.Reroute.{
  Floats, validate, reroute, check_rings, check_ring, extent_from, extend, valid_coord, too_wide,
  distance_meters, radians,
}
use swayrider_api.Handlers.Reroute.Accepted.{IsAccepted, validate-IsAccepted, reroute-IsAccepted}
use swayrider_api.Circuit.{Counts, ready_to_trip}
use swayrider_api.Circuit.Tripping.{IsCounted, ready_to_trip_iff}
use swayrider_api.Examples.Jobs.{server, codec, run, claims, empty}

-- Whole numbers, with operations under which all distances are 2.
abbrev le : ℤ → ℤ → Bool
le (pos a) (pos b) = leb a b
le (pos a) (negsuc b) = false
le (negsuc a) (pos b) = true
le (negsuc a) (negsuc b) = leb b a

abbrev pub floats : Floats ℤ
floats = record {
  integer = λ n. n;
  pi = pos 3;
  earth_radius = pos 6371008;
  is_nan = λ n. false;
  at_most = le;
  above = λ a b. not (le a b);
  plus = λ a b. a;
  minus = λ a b. if le a b then pos 0 else a;
  times = λ a b. a;
  over = λ a b. pos 0;
  minimum = λ a b. if le a b then a else b;
  maximum = λ a b. if le a b then b else a;
  sin = λ a. pos 0;
  cos = λ a. pos 1;
  asin = λ a. a;
  sqrt = λ a. a;
}

abbrev pub print : ℕ → String
print n = "n"

abbrev point : ℕ → ℕ → RouteCoord ℤ
point lat lon = record { lat = pos lat; lon = pos lon }

abbrev pub detour : RerouteRequest ℤ
detour = record {
  route = record {
    from = point 50 4;
    to = point 51 4;
    waypoints = [];
    vehicle = "car";
    unit = "";
    language = "nl";
    options = record {
      avoid_toll_roads = false;
      avoid_highways = false;
      avoid_ferries = true;
      scenic_preference = pos 0;
      highway_avoidance = pos 0;
      toll_avoidance = pos 0;
      unpaved_handling = "";
    };
  };
  from_heading = some (pos 90);
  from_heading_tolerance = none;
  exclusions = (point 50 4 ∷ point 50 5 ∷ point 51 5 ∷ []) ∷ [];
}

pub accepted : validate floats print detour ≡ none
unfolding validate check_rings check_ring extent_from extend valid_coord too_wide distance_meters
    radians
accepted = refl

validate-IsAccepted_example : (validate floats print detour ≡ none) ↔ IsAccepted floats detour
validate-IsAccepted_example = validate-IsAccepted floats print detour

abbrev pub request : Request
request = record {
  method = "POST";
  path = "/api/v1/route/reroute";
  remote_addr = "10.0.0.1:4000";
  tls = false;
  headers = [];
  body_limit = none;
  ctx = record no_context { claims = some claims };
}

-- The JSON of the one request.
abbrev pub marshal : RerouteRequest ℤ → Option String
marshal r = some "{}"

abbrev pub read : Request → Decoded (RerouteRequest ℤ)
read r = decoded detour

reroute-IsAccepted_example :
    ((refusal : Response) × (reroute floats print server codec
          (pos 8)
          run
          read
          marshal
          request
          []
          empty
        ≡ (refusal, empty)))
    ⊎ ((c : Claims) × (req : RerouteRequest ℤ) × (request.ctx.claims ≡ some c)
        × (read request ≡ decoded req)
        × IsAccepted floats req
        × (reroute floats print server codec (pos 8) run read marshal request [] empty
            ≡ stream_job server codec (pos 8) run stream_rerouting (marshal req) c [] empty))
reroute-IsAccepted_example =
    reroute-IsAccepted floats print server codec (pos 8) run read marshal request [] empty

abbrev no_summary : Summary ℤ
no_summary = record {
  time = pos 0;
  length = pos 0;
  has_toll = false;
  has_highway = false;
  has_ferry = true;
  bounding_box = none;
}

abbrev crossing : Trip ℤ String
crossing = record {
  status = pos 0;
  status_message = "Found route";
  unit = imperial;
  language = "nl";
  locations =
      record {
        location = record { lat = pos 51; lon = pos 4 };
        kind = through;
        preferred_heading = some (pos 90);
        side_of_street = some left_side;
        date_time = none;
        time_zone_offset = none;
        time_zone_name = none;
      }
      ∷ [];
  legs = [];
  summary = no_summary;
}

-- A time is its text, which is not "".
abbrev parse_time : String → Option String
parse_time s = if s == "" then none else some s

abbrev pub print_time : String → String
print_time t = if t == "" then "1970-01-01T00:00:00Z" else t

printed : (t : String) → parse_time (print_time t) ≡ some (print_time t)
printed t = elim (Bool-cases (t == "")) [ inl e ↦ rw e refl | inr n ↦ rw (n, n) refl ]

trip_of-to_trip_result_example :
    trip_of parse_time (to_trip_result print_time crossing) ≡ named_trip print_time crossing
trip_of-to_trip_result_example =
    trip_of-to_trip_result print_time parse_time print_time printed refl crossing

-- A codec whose texts all stand for the one request.
abbrev pub route_codec : RouteCodec ℤ
route_codec = record {
  unmarshal_route = λ payload. inr detour.route;
  unmarshal_reroute = λ payload. inr detour;
  marshal_trip = λ t. inr t.units;
}

abbrev pub router : RouterClient ℤ String ℕ
router = record {
  route_raw = λ ctx token q n. (inr crossing, suc n);
  reroute_raw = λ ctx token q n. (inr crossing, suc n);
}

abbrev pub breaker : Breaker ℕ
breaker = record { execute = λ name fn n. fn n }

pub closed : (n : ℕ) → IsClosed breaker "routerservice" n
closed n A fn = refl

abbrev counts : Counts
counts = record { requests = 10; total_failures = 6; consecutive_failures = 2 }

counts-IsCounted : IsCounted counts
counts-IsCounted = record { consecutive = omega arith; failed = omega arith; few = omega arith }

ready_to_trip_iff_example : (ready_to_trip counts ≡ true) ↔ (
    (5 ≤ counts.consecutive_failures)
    ⊎ (10 ≤ counts.requests) × (51 * counts.requests ≤ 100 * counts.total_failures))
ready_to_trip_iff_example = ready_to_trip_iff counts counts-IsCounted
