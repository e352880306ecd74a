-- ===== src/Queue/Results.antt =====
-- internal/queue/result.go: the results of routing jobs. F is float64; a pointer is an Option, and a
-- nil slice and an empty one are [].
use swayrider_api.Base.{ℕ, String, Bool, Option, List, ℤ}

pub record SignElementResult : Type 0 where
  pub text : String
  pub consecutive_count : Option ℤ

pub record SignResult : Type 0 where
  pub exit_number_elements : List SignElementResult
  pub exit_branch_elements : List SignElementResult
  pub exit_toward_elements : List SignElementResult
  pub exit_name_elements : List SignElementResult

pub record TurnLaneResult : Type 0 where
  pub directions : ℤ
  pub valid : Option ℕ
  pub active : Option ℕ

pub record BBoxResult (F : Type 0) : Type 0 where
  pub min_lat : F
  pub min_lon : F
  pub max_lat : F
  pub max_lon : F

pub record SummaryResult (F : Type 0) : Type 0 where
  pub time : F
  pub length : F
  pub has_toll : Bool
  pub has_highway : Bool
  pub has_ferry : Bool
  pub bounding_box : Option (BBoxResult F)

pub record ManeuverResult (F : Type 0) : Type 0 where
  pub kind : ℤ
  pub instruction : String
  pub verbal_transition_alert_instruction : String
  pub verbal_pre_transition_instruction : String
  pub verbal_post_transition_instruction : String
  pub street_names : List String
  pub begin_street_names : List String
  pub time : F
  pub length : F
  pub begin_shape_index : ℤ
  pub end_shape_index : ℤ
  pub toll : Option Bool
  pub highway : Option Bool
  pub rough : Option Bool
  pub gate : Option Bool
  pub ferry : Option Bool
  pub sign : Option SignResult
  pub roundabout_exit_count : Option ℤ
  pub depart_instruction : Option String
  pub verbal_depart_instruction : Option String
  pub arrive_instruction : Option String
  pub verbal_arrive_instruction : Option String
  pub verbal_multi_cue : Option Bool
  pub travel_mode : String
  pub travel_type : String
  pub bearing_before : ℤ
  pub bearing_after : ℤ
  pub lanes : List TurnLaneResult
  pub roundabout_exit_angles : List ℤ
  pub roundabout_entry_angles : List ℤ

pub record LegResult (F : Type 0) : Type 0 where
  pub shape : String
  pub maneuvers : List (ManeuverResult F)
  pub summary : SummaryResult F
  pub elevation : List F
  pub elevation_interval : Option F

pub record LocationResult (F : Type 0) : Type 0 where
  pub lat : F
  pub lon : F
  pub kind : String
  pub heading : Option ℤ
  pub side_of_street : String
  pub date_time : String
  pub original_index : Option ℤ
  pub time_zone_offset : Option String
  pub time_zone_name : Option String

pub record TripResult (F : Type 0) : Type 0 where
  pub status : ℤ
  pub status_message : String
  pub units : String
  pub language : String
  pub locations : List (LocationResult F)
  pub legs : List (LegResult F)
  pub summary : SummaryResult F
