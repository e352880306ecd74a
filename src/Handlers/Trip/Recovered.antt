-- ===== src/Handlers/Trip/Recovered.antt =====
-- internal/handlers/route.go: what a client can read back from a RouteResult.
use swayrider_api.Base.{String, ◌≡◌, refl, ap, ◌∙◌, Option, none, some, List, [], ◌∷◌, map, ℤ}
use swayrider_api.Queue.Results.{
  SignElementResult, SignResult, TurnLaneResult, BBoxResult, SummaryResult, ManeuverResult,
  LegResult, LocationResult, TripResult,
}
use swayrider_api.Handlers.Trip.Proto.{
  SignElement, Sign, TurnLane, BoundingBox, Summary, Maneuver, Leg, Location, Trip,
}
use swayrider_api.Handlers.Trip.{
  map_option, to_ints, to_sign_element_result, to_sign_result, to_turn_lane_result, to_bbox_result,
  to_summary_result, to_maneuver_result, to_leg_result, to_location_result, to_trip_result,
}
use swayrider_api.Handlers.Trip.Names.{
  unit_of, location_type, side, travel_mode, travel_type, named_unit, named_location, named_side,
  named_mode, named_travel, unit_of-units_of, location_type-location_type_of, side-side_of,
  travel_mode-travel_mode_of, travel_type-travel_type_of,
}

to_ints_lem : (l : List ℤ) → to_ints l ≡ l
unfolding to_ints
to_ints_lem [] = refl
to_ints_lem (n ∷ l) = ap (λ t. n ∷ t) (to_ints_lem l)

module _ {A B C : Type 0} (f : B → C) (g : A → B) (h : A → C) (e : (a : A) → f (g a) ≡ h a) where
  map-map : (l : List A) → map f (map g l) ≡ map h l
  map-map [] = refl
  map-map (a ∷ l) = rw (e a, map-map l) refl

  map_option-map_option : (o : Option A) → map_option f (map_option g o) ≡ map_option h o
  map_option-map_option none = refl
  map_option-map_option (some a) = rw (e a) refl

map-same : {A : Type 0} (l : List A) → map (λ a. a) l ≡ l
map-same [] = refl
map-same (a ∷ l) = ap (λ t. a ∷ t) (map-same l)

map_option-same : {A : Type 0} (o : Option A) → map_option (λ a. a) o ≡ o
map_option-same none = refl
map_option-same (some a) = refl

sign_element_of : SignElementResult → SignElement
sign_element_of e = record { text = e.text; consecutive_count = e.consecutive_count }

sign_elements : (l : List SignElement) → map sign_element_of (map to_sign_element_result l) ≡ l
unfolding sign_element_of to_sign_element_result
sign_elements l = map-map _ _ (λ a. a) (λ a. refl) l ∙ map-same l

sign_of : SignResult → Sign
sign_of s = record {
  exit_number_elements = map sign_element_of s.exit_number_elements;
  exit_branch_elements = map sign_element_of s.exit_branch_elements;
  exit_toward_elements = map sign_element_of s.exit_toward_elements;
  exit_name_elements = map sign_element_of s.exit_name_elements;
}

sign_of-to_sign_result : (s : Sign) → sign_of (to_sign_result s) ≡ s
unfolding sign_of to_sign_result
sign_of-to_sign_result s =
    rw
      (
        sign_elements s.exit_number_elements,
        sign_elements s.exit_branch_elements,
        sign_elements s.exit_toward_elements,
        sign_elements s.exit_name_elements,
      )
      refl

turn_lane_of : TurnLaneResult → TurnLane
turn_lane_of lane = record {
  directions = lane.directions;
  valid = lane.valid;
  active = lane.active;
}

turn_lanes : (l : List TurnLane) → map turn_lane_of (map to_turn_lane_result l) ≡ l
unfolding turn_lane_of to_turn_lane_result
turn_lanes l = map-map _ _ (λ a. a) (λ a. refl) l ∙ map-same l

module _ {F : Type 0} where
  bounding_box_of : BBoxResult F → BoundingBox F
  bounding_box_of b = record {
    bottom_left = record { lat = b.min_lat; lon = b.min_lon };
    top_right = record { lat = b.max_lat; lon = b.max_lon };
  }

  pub summary_of : SummaryResult F → Summary F
  summary_of s = record {
    time = s.time;
    length = s.length;
    has_toll = s.has_toll;
    has_highway = s.has_highway;
    has_ferry = s.has_ferry;
    bounding_box = map_option bounding_box_of s.bounding_box;
  }

  bounding_boxes :
      (o : Option (BoundingBox F)) → map_option bounding_box_of (map_option to_bbox_result o) ≡ o
  unfolding bounding_box_of to_bbox_result
  bounding_boxes o = map_option-map_option _ _ (λ a. a) (λ a. refl) o ∙ map_option-same o

  summary_of-to_summary_result : (s : Summary F) → summary_of (to_summary_result s) ≡ s
  unfolding summary_of to_summary_result
  summary_of-to_summary_result s = rw (bounding_boxes s.bounding_box) refl

  maneuver_of : ManeuverResult F → Maneuver F
  maneuver_of m = record {
    kind = m.kind;
    instruction = m.instruction;
    verbal_transition_alert_instruction = m.verbal_transition_alert_instruction;
    verbal_pre_transition_instruction = m.verbal_pre_transition_instruction;
    verbal_post_transition_instruction = m.verbal_post_transition_instruction;
    street_names = m.street_names;
    begin_street_names = m.begin_street_names;
    time = m.time;
    length = m.length;
    begin_shape_index = m.begin_shape_index;
    end_shape_index = m.end_shape_index;
    toll = m.toll;
    highway = m.highway;
    rough = m.rough;
    gate = m.gate;
    ferry = m.ferry;
    sign = map_option sign_of m.sign;
    roundabout_exit_count = m.roundabout_exit_count;
    depart_instruction = m.depart_instruction;
    verbal_depart_instruction = m.verbal_depart_instruction;
    arrive_instruction = m.arrive_instruction;
    verbal_arrive_instruction = m.verbal_arrive_instruction;
    verbal_multi_cue = m.verbal_multi_cue;
    travel_mode = travel_mode m.travel_mode;
    travel_type = travel_type m.travel_type;
    bearing_before = m.bearing_before;
    bearing_after = m.bearing_after;
    lanes = map turn_lane_of m.lanes;
    roundabout_exit_angles = m.roundabout_exit_angles;
    roundabout_entry_angles = m.roundabout_entry_angles;
  }

  abbrev pub named_maneuver : Maneuver F → Maneuver F
  named_maneuver m = record m {
    travel_mode = named_mode m.travel_mode;
    travel_type = named_travel m.travel_type;
  }

  maneuver_of-to_maneuver_result :
      (m : Maneuver F) → maneuver_of (to_maneuver_result m) ≡ named_maneuver m
  unfolding maneuver_of to_maneuver_result
  maneuver_of-to_maneuver_result m =
      rw
        (
          map_option-map_option sign_of to_sign_result (λ a. a) sign_of-to_sign_result m.sign,
          map_option-same m.sign,
          travel_mode-travel_mode_of m.travel_mode,
          travel_type-travel_type_of m.travel_type,
          turn_lanes m.lanes,
          to_ints_lem m.roundabout_exit_angles,
          to_ints_lem m.roundabout_entry_angles,
        )
        refl

  pub leg_of : LegResult F → Leg F
  leg_of leg = record {
    shape = leg.shape;
    maneuvers = map maneuver_of leg.maneuvers;
    summary = summary_of leg.summary;
    elevation = leg.elevation;
    elevation_interval = leg.elevation_interval;
  }

  abbrev pub named_leg : Leg F → Leg F
  named_leg leg = record leg { maneuvers = map named_maneuver leg.maneuvers }

  leg_of-to_leg_result : (leg : Leg F) → leg_of (to_leg_result leg) ≡ named_leg leg
  unfolding leg_of to_leg_result
  leg_of-to_leg_result leg =
      rw
        (
          map-map _ _ named_maneuver maneuver_of-to_maneuver_result leg.maneuvers,
          summary_of-to_summary_result leg.summary,
        )
        refl

  abbrev pub location_of : {T : Type 0} → (String → Option T) → LocationResult F → Location F T
  location_of parse_time loc = record {
    location = record { lat = loc.lat; lon = loc.lon };
    kind = location_type loc.kind;
    preferred_heading = loc.heading;
    side_of_street = side loc.side_of_street;
    date_time = parse_time loc.date_time;
    time_zone_offset = loc.time_zone_offset;
    time_zone_name = loc.time_zone_name;
  }

  abbrev pub named_loc : {T : Type 0} → (T → T) → Location F T → Location F T
  named_loc seconds loc = record loc {
    kind = named_location loc.kind;
    side_of_street = named_side loc.side_of_street;
    date_time = map_option seconds loc.date_time;
  }

  unfoldable pub trip_of : {T : Type 0} → (String → Option T) → TripResult F → Trip F T
  trip_of parse_time trip = record {
    status = trip.status;
    status_message = trip.status_message;
    unit = unit_of trip.units;
    language = trip.language;
    locations = map (location_of parse_time) trip.locations;
    legs = map leg_of trip.legs;
    summary = summary_of trip.summary;
  }

  abbrev pub named_trip : {T : Type 0} → (T → T) → Trip F T → Trip F T
  named_trip seconds trip = record trip {
    unit = named_unit trip.unit;
    locations = map (named_loc seconds) trip.locations;
    legs = map named_leg trip.legs;
  }

-- Timestamps are printed and parsed to the second.
module _ {T : Type 0} (print_time : T → String) (parse_time : String → Option T) (seconds : T → T)
    (parse-print : (t : T) → parse_time (print_time t) ≡ some (seconds t))
    (parse-empty : parse_time "" ≡ none) where
  times :
      (o : Option T)
      → parse_time (elim o [ none ↦ "" | some t ↦ print_time t ]) ≡ map_option seconds o
  times none = parse-empty
  times (some t) = parse-print t

  module _ {F : Type 0} where
    location_of-to_location_result :
        (loc : Location F T)
        → location_of parse_time (to_location_result print_time loc) ≡ named_loc seconds loc
    unfolding to_location_result
    location_of-to_location_result loc =
        rw
          (
            location_type-location_type_of loc.kind,
            side-side_of loc.side_of_street,
            times loc.date_time,
          )
          refl

    -- A client can read the whole trip back from the result, each location, leg, maneuver, sign and
    -- lane in its place, but for enum numbers that have no name and fractions of a second, where
    -- RFC 3339 texts are parsed as they were printed and "" is no time.
    pub trip_of-to_trip_result :
        (trip : Trip F T)
        → trip_of parse_time (to_trip_result print_time trip) ≡ named_trip seconds trip
    unfolding trip_of to_trip_result
    trip_of-to_trip_result trip =
        rw
          (
            unit_of-units_of trip.unit,
            map-map (location_of parse_time) (to_location_result print_time) (named_loc seconds)
                location_of-to_location_result trip.locations,
            map-map leg_of to_leg_result named_leg leg_of-to_leg_result trip.legs,
            summary_of-to_summary_result trip.summary,
          )
          refl
