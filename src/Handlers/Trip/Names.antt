-- ===== src/Handlers/Trip/Names.antt =====
-- internal/handlers/route.go: the names of the enums' constants, read back.
use swayrider_api.Base.{
  String, ◌≡◌, refl, Option, none, some, List, [], ◌∷◌, pos, ◌==◌, if◌then◌else◌,
}
use swayrider_api.Handlers.Trip.Proto.{
  DistanceUnit, imperial, other_unit, LocationType, through, via, break_through, other_location,
  SideOfStreet, left_side, right_side, other_side, TravelMode, pedestrian, bicycle, transit,
  other_mode, TravelType, motorscooter, motorcycle, truck, bus, foot, wheelchair, road, hybrid,
  cross, mountain, tram, metro, rail, ferry_line, cable_car, gondola, funicular, other_travel,
}
use swayrider_api.Handlers.Trip.{
  units_of, location_type_of, side_of, travel_mode_of, travel_type_of,
}

-- The value of the first entry with the text, or else the default.
abbrev chosen : {A : Type 0} → List (String × A) → A → String → A
chosen [] other s = other
chosen ((t, a) ∷ l) other s = if s == t then a else chosen l other s

unfoldable pub unit_of : String → DistanceUnit
unit_of = chosen (("miles", imperial) ∷ []) (other_unit (pos 0))

unfoldable pub location_type : String → LocationType
location_type =
    chosen (("through", through) ∷ ("via", via) ∷ ("break_through", break_through) ∷ [])
      (other_location (pos 0))

unfoldable pub side : String → Option SideOfStreet
side = chosen (("left", some left_side) ∷ ("right", some right_side) ∷ []) none

unfoldable pub travel_mode : String → TravelMode
travel_mode =
    chosen (("pedestrian", pedestrian) ∷ ("bicycle", bicycle) ∷ ("transit", transit) ∷ [])
      (other_mode (pos 0))

unfoldable pub travel_type : String → TravelType
travel_type =
    chosen
      (("motorscooter", motorscooter)
        ∷ ("motorcycle", motorcycle)
        ∷ ("truck", truck)
        ∷ ("bus", bus)
        ∷ ("foot", foot)
        ∷ ("wheelchair", wheelchair)
        ∷ ("road", road)
        ∷ ("hybrid", hybrid)
        ∷ ("cross", cross)
        ∷ ("mountain", mountain)
        ∷ ("tram", tram)
        ∷ ("metro", metro)
        ∷ ("rail", rail)
        ∷ ("ferry", ferry_line)
        ∷ ("cable_car", cable_car)
        ∷ ("gondola", gondola)
        ∷ ("funicular", funicular)
        ∷ [])
      (other_travel (pos 0))

-- The enums as the clients know them: all numbers without a name of their own are one.
abbrev pub named_unit : DistanceUnit → DistanceUnit
named_unit imperial = imperial
named_unit (other_unit n) = other_unit (pos 0)

abbrev pub named_location : LocationType → LocationType
named_location through = through
named_location via = via
named_location break_through = break_through
named_location (other_location n) = other_location (pos 0)

abbrev pub named_side : Option SideOfStreet → Option SideOfStreet
named_side none = none
named_side (some left_side) = some left_side
named_side (some right_side) = some right_side
named_side (some (other_side n)) = none

abbrev pub named_mode : TravelMode → TravelMode
named_mode pedestrian = pedestrian
named_mode bicycle = bicycle
named_mode transit = transit
named_mode (other_mode n) = other_mode (pos 0)

abbrev pub named_travel : TravelType → TravelType
named_travel (other_travel n) = other_travel (pos 0)
named_travel t = t

pub unit_of-units_of : (u : DistanceUnit) → unit_of (units_of u) ≡ named_unit u
unfolding unit_of units_of
unit_of-units_of imperial = refl
unit_of-units_of (other_unit n) = refl

pub travel_type-travel_type_of : (t : TravelType) → travel_type (travel_type_of t) ≡ named_travel t
unfolding travel_type travel_type_of
travel_type-travel_type_of motorscooter = refl
travel_type-travel_type_of (other_travel n) = refl
travel_type-travel_type_of t = refl

pub location_type-location_type_of :
    (t : LocationType) → location_type (location_type_of t) ≡ named_location t
unfolding location_type location_type_of
location_type-location_type_of (other_location n) = refl
location_type-location_type_of t = refl

pub side-side_of : (s : Option SideOfStreet) → side (side_of s) ≡ named_side s
unfolding side side_of
side-side_of none = refl
side-side_of (some (other_side n)) = refl
side-side_of (some s) = refl

pub travel_mode-travel_mode_of : (m : TravelMode) → travel_mode (travel_mode_of m) ≡ named_mode m
unfolding travel_mode travel_mode_of
travel_mode-travel_mode_of (other_mode n) = refl
travel_mode-travel_mode_of m = refl
