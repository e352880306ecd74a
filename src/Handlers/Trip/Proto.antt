-- ===== src/Handlers/Trip/Proto.antt =====
-- The messages of router/v1 with the fields that internal/handlers/route.go reads. An enum has the
-- constants that the code names, and one constructor for any other number. A message that the code
-- reads without a test for nil is there. F is float64 and T is Timestamp.
use swayrider_api.Base.{ℕ, String, Bool, Option, List, ℤ}

pub data DistanceUnit : Type 0 where
  imperial : DistanceUnit
  other_unit : ℤ → DistanceUnit

pub data LocationType : Type 0 where
  through via break_through : LocationType
  other_location : ℤ → LocationType

pub data SideOfStreet : Type 0 where
  left_side right_side : SideOfStreet
  other_side : ℤ → SideOfStreet

pub data TravelMode : Type 0 where
  pedestrian bicycle transit : TravelMode
  other_mode : ℤ → TravelMode

pub data TravelType : Type 0 where
  motorscooter motorcycle truck bus foot wheelchair road hybrid cross mountain tram metro rail
        ferry_line cable_car gondola funicular :
      TravelType
  other_travel : ℤ → TravelType

pub record SignElement : Type 0 where
  pub text : String
  pub consecutive_count : Option ℤ

pub record Sign : Type 0 where
  pub exit_number_elements : List SignElement
  pub exit_branch_elements : List SignElement
  pub exit_toward_elements : List SignElement
  pub exit_name_elements : List SignElement

pub record TurnLane : Type 0 where
  pub directions : ℤ
  pub valid : Option ℕ
  pub active : Option ℕ

pub record LatLon (F : Type 0) : Type 0 where
  pub lat : F
  pub lon : F

pub record BoundingBox (F : Type 0) : Type 0 where
  pub bottom_left : LatLon F
  pub top_right : LatLon F

pub record Summary (F : Type 0) : Type 0 where
  pub time : F
  pub length : F
  pub has_toll : Bool
  pub has_highway : Bool
  pub has_ferry : Bool
  pub bounding_box : Option (BoundingBox F)

pub record Maneuver (F : Type 0) : Type 0 where
  pub kind : ℤ
  pub instruction : String
  pub verbal_transition_alert_instruction : String
  pub verbal_pre_transition_instruction : String
  pub verbal_post_transition_instruction : String
  pub street_names : List String
  pub begin_street_names : List String
  pub time : F
  pub length : F
  pub begin_shape_index : ℤ
  pub end_shape_index : ℤ
  pub toll : Option Bool
  pub highway : Option Bool
  pub rough : Option Bool
  pub gate : Option Bool
  pub ferry : Option Bool
  pub sign : Option Sign
  pub roundabout_exit_count : Option ℤ
  pub depart_instruction : Option String
  pub verbal_depart_instruction : Option String
  pub arrive_instruction : Option String
  pub verbal_arrive_instruction : Option String
  pub verbal_multi_cue : Option Bool
  pub travel_mode : TravelMode
  pub travel_type : TravelType
  pub bearing_before : ℤ
  pub bearing_after : ℤ
  pub lanes : List TurnLane
  pub roundabout_exit_angles : List ℤ
  pub roundabout_entry_angles : List ℤ

pub record Leg (F : Type 0) : Type 0 where
  pub shape : String
  pub maneuvers : List (Maneuver F)
  pub summary : Summary F
  pub elevation : List F
  pub elevation_interval : Option F

pub record Location (F T : Type 0) : Type 0 where
  pub location : LatLon F
  pub kind : LocationType
  pub preferred_heading : Option ℤ
  pub side_of_street : Option SideOfStreet
  pub date_time : Option T
  pub time_zone_offset : Option String
  pub time_zone_name : Option String

pub record Trip (F T : Type 0) : Type 0 where
  pub status : ℤ
  pub status_message : String
  pub unit : DistanceUnit
  pub language : String
  pub locations : List (Location F T)
  pub legs : List (Leg F)
  pub summary : Summary F
