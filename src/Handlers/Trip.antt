-- ===== src/Handlers/Trip.antt =====
-- internal/handlers/route.go: the conversion of a routerservice trip to the queue's RouteResult. An
-- int32 fits into an int, so conversions of integers change nothing. `print_time` is
-- AsTime().Format(time.RFC3339).
pub mod Proto
pub mod Names
pub mod Recovered
use swayrider_api.Base.{String, Option, none, some, List, [], ◌∷◌, map, ℤ}
use swayrider_api.Queue.Results.{
  SignElementResult, SignResult, TurnLaneResult, BBoxResult, SummaryResult, ManeuverResult,
  LegResult, LocationResult, TripResult,
}
use Proto.{
  DistanceUnit, imperial, other_unit, LocationType, through, via, break_through, other_location,
  SideOfStreet, left_side, right_side, other_side, TravelMode, pedestrian, bicycle, transit,
  other_mode, TravelType, motorscooter, motorcycle, truck, bus, foot, wheelchair, road, hybrid,
  cross, mountain, tram, metro, rail, ferry_line, cable_car, gondola, funicular, other_travel,
  SignElement, Sign, TurnLane, BoundingBox, Summary, Maneuver, Leg, Location, Trip,
}

abbrev pub map_option : {A B : Type 0} → (A → B) → Option A → Option B
map_option f none = none
map_option f (some a) = some (f a)

unfoldable pub to_ints : List ℤ → List ℤ
to_ints [] = []
to_ints (v ∷ values) = v ∷ to_ints values

unfoldable pub to_sign_element_result : SignElement → SignElementResult
to_sign_element_result e = record { text = e.text; consecutive_count = e.consecutive_count }

unfoldable pub to_sign_result : Sign → SignResult
to_sign_result s = record {
  exit_number_elements = map to_sign_element_result s.exit_number_elements;
  exit_branch_elements = map to_sign_element_result s.exit_branch_elements;
  exit_toward_elements = map to_sign_element_result s.exit_toward_elements;
  exit_name_elements = map to_sign_element_result s.exit_name_elements;
}

-- The switches of toTripResult, toLocationResult and toManeuverResult.
unfoldable pub units_of : DistanceUnit → String
units_of imperial = "miles"
units_of (other_unit n) = "kilometers"

unfoldable pub location_type_of : LocationType → String
location_type_of through = "through"
location_type_of via = "via"
location_type_of break_through = "break_through"
location_type_of (other_location n) = "break"

unfoldable pub side_of : Option SideOfStreet → String
side_of none = ""
side_of (some left_side) = "left"
side_of (some right_side) = "right"
side_of (some (other_side n)) = ""

unfoldable pub travel_mode_of : TravelMode → String
travel_mode_of pedestrian = "pedestrian"
travel_mode_of bicycle = "bicycle"
travel_mode_of transit = "transit"
travel_mode_of (other_mode n) = "drive"

unfoldable pub travel_type_of : TravelType → String
travel_type_of motorscooter = "motorscooter"
travel_type_of motorcycle = "motorcycle"
travel_type_of truck = "truck"
travel_type_of bus = "bus"
travel_type_of foot = "foot"
travel_type_of wheelchair = "wheelchair"
travel_type_of road = "road"
travel_type_of hybrid = "hybrid"
travel_type_of cross = "cross"
travel_type_of mountain = "mountain"
travel_type_of tram = "tram"
travel_type_of metro = "metro"
travel_type_of rail = "rail"
travel_type_of ferry_line = "ferry"
travel_type_of cable_car = "cable_car"
travel_type_of gondola = "gondola"
travel_type_of funicular = "funicular"
travel_type_of (other_travel n) = "car"

unfoldable pub to_turn_lane_result : TurnLane → TurnLaneResult
to_turn_lane_result lane = record {
  directions = lane.directions;
  valid = lane.valid;
  active = lane.active;
}

module _ {F : Type 0} where
  unfoldable pub to_bbox_result : BoundingBox F → BBoxResult F
  to_bbox_result b = record {
    min_lat = b.bottom_left.lat;
    min_lon = b.bottom_left.lon;
    max_lat = b.top_right.lat;
    max_lon = b.top_right.lon;
  }

  unfoldable pub to_summary_result : Summary F → SummaryResult F
  to_summary_result s = record {
    time = s.time;
    length = s.length;
    has_toll = s.has_toll;
    has_highway = s.has_highway;
    has_ferry = s.has_ferry;
    bounding_box = map_option to_bbox_result s.bounding_box;
  }

  unfoldable pub to_maneuver_result : Maneuver F → ManeuverResult F
  to_maneuver_result m = record {
    kind = m.kind;
    instruction = m.instruction;
    verbal_transition_alert_instruction = m.verbal_transition_alert_instruction;
    verbal_pre_transition_instruction = m.verbal_pre_transition_instruction;
    verbal_post_transition_instruction = m.verbal_post_transition_instruction;
    street_names = m.street_names;
    begin_street_names = m.begin_street_names;
    time = m.time;
    length = m.length;
    begin_shape_index = m.begin_shape_index;
    end_shape_index = m.end_shape_index;
    toll = m.toll;
    highway = m.highway;
    rough = m.rough;
    gate = m.gate;
    ferry = m.ferry;
    sign = map_option to_sign_result m.sign;
    roundabout_exit_count = m.roundabout_exit_count;
    depart_instruction = m.depart_instruction;
    verbal_depart_instruction = m.verbal_depart_instruction;
    arrive_instruction = m.arrive_instruction;
    verbal_arrive_instruction = m.verbal_arrive_instruction;
    verbal_multi_cue = m.verbal_multi_cue;
    travel_mode = travel_mode_of m.travel_mode;
    travel_type = travel_type_of m.travel_type;
    bearing_before = m.bearing_before;
    bearing_after = m.bearing_after;
    lanes = map to_turn_lane_result m.lanes;
    roundabout_exit_angles = to_ints m.roundabout_exit_angles;
    roundabout_entry_angles = to_ints m.roundabout_entry_angles;
  }

  unfoldable pub to_leg_result : Leg F → LegResult F
  to_leg_result leg = record {
    shape = leg.shape;
    maneuvers = map to_maneuver_result leg.maneuvers;
    summary = to_summary_result leg.summary;
    elevation = leg.elevation;
    elevation_interval = leg.elevation_interval;
  }

  module _ {T : Type 0} (print_time : T → String) where
    unfoldable pub to_location_result : Location F T → LocationResult F
    to_location_result loc = record {
      lat = loc.location.lat;
      lon = loc.location.lon;
      kind = location_type_of loc.kind;
      heading = loc.preferred_heading;
      side_of_street = side_of loc.side_of_street;
      date_time = elim loc.date_time [ none ↦ "" | some t ↦ print_time t ];
      original_index = none;
      time_zone_offset = loc.time_zone_offset;
      time_zone_name = loc.time_zone_name;
    }

    unfoldable pub to_trip_result : Trip F T → TripResult F
    to_trip_result trip = record {
      status = trip.status;
      status_message = trip.status_message;
      units = units_of trip.unit;
      language = trip.language;
      locations = map to_location_result trip.locations;
      legs = map to_leg_result trip.legs;
      summary = to_summary_result trip.summary;
    }
