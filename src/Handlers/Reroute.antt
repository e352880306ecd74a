-- ===== src/Handlers/Reroute.antt =====
-- internal/handlers/reroute.go: the validation of reroute requests and the handler. The type F of
-- float64 and its operations (package math) are the parameter `floats`, `print` is the verb %d.
pub mod Accepted
pub mod Bounded
pub mod Delivered
use swayrider_api.Base.{
  ℕ, zero, suc, String, append, Bool, true, false, not, ◌&&◌, ◌||◌, Option, none, some, List, [],
  ◌∷◌, ◌⊎◌, inl, inr, if◌then◌else◌, ltb, leb, length, ℤ, pos, negsuc,
}
use swayrider_api.Http.{Headers, Request, Response, http_error}
use swayrider_api.Queue.{Redis, Codec, stream_rerouting}
use swayrider_api.Handlers.Stream.{Decoded, decode_body, Run, stream_job}
use swayrider_api.Handlers.Route.{RouteCoord, RerouteRequest}

pub record Floats (F : Type 0) : Type 0 where
  pub integer : ℤ → F
  pub pi : F
  -- 6371008.8
  pub earth_radius : F
  pub is_nan : F → Bool
  -- a <= b
  pub at_most : F → F → Bool
  -- a > b
  pub above : F → F → Bool
  pub plus : F → F → F
  pub minus : F → F → F
  pub times : F → F → F
  pub over : F → F → F
  pub minimum : F → F → F
  pub maximum : F → F → F
  pub sin : F → F
  pub cos : F → F
  pub asin : F → F
  pub sqrt : F → F

abbrev pub max_exclusion_polygons : ℕ
max_exclusion_polygons = 6

abbrev pub max_exclusion_points : ℕ
max_exclusion_points = 40

-- The least and the greatest latitude and longitude of a ring.
pub record Extent (F : Type 0) : Type 0 where
  pub min_lat : F
  pub max_lat : F
  pub min_lon : F
  pub max_lon : F

-- lo <= n && n <= hi
abbrev pub in_range : ℕ → ℕ → ℤ → Bool
in_range lo hi (pos n) = leb lo n && leb n hi
in_range lo hi (negsuc n) = false

-- whether a pointer is nil or its value is in the range
abbrev pub fits_range : ℕ → ℕ → Option ℤ → Bool
fits_range lo hi none = true
fits_range lo hi (some n) = in_range lo hi n

-- The text of fmt.Errorf("exclusions[%d]: ...").
abbrev pub ring_error : (ℕ → String) → ℕ → String → String
ring_error print i text = append "exclusions[" (append (print i) (append "]: " text))

module _ {F : Type 0} (floats : Floats F) where
  unfoldable pub valid_coord : RouteCoord F → Bool
  valid_coord c =
      not (floats.is_nan c.lat)
      && not (floats.is_nan c.lon)
      && floats.at_most (floats.integer (negsuc 89)) c.lat
      && floats.at_most c.lat (floats.integer (pos 90))
      && floats.at_most (floats.integer (negsuc 179)) c.lon
      && floats.at_most c.lon (floats.integer (pos 180))

  unfoldable pub radians : F → F
  radians d = floats.over (floats.times d floats.pi) (floats.integer (pos 180))

  unfoldable pub distance_meters : F → F → F → F → F
  distance_meters lat₁ lon₁ lat₂ lon₂ =
      let half_lat = floats.over (radians (floats.minus lat₂ lat₁)) (floats.integer (pos 2)) in
      let half_lon = floats.over (radians (floats.minus lon₂ lon₁)) (floats.integer (pos 2)) in
      let h = floats.plus (floats.times (floats.sin half_lat) (floats.sin half_lat)) (
        floats.times
          (floats.times (floats.times (floats.cos (radians lat₁)) (floats.cos (radians lat₂)))
            (floats.sin half_lon))
          (floats.sin half_lon)) in
      floats.times (floats.times (floats.integer (pos 2)) floats.earth_radius)
        (floats.asin (floats.minimum (floats.integer (pos 1)) (floats.sqrt h)))

  abbrev pub no_extent : Extent F
  no_extent = record {
    min_lat = floats.integer (pos 90);
    max_lat = floats.integer (negsuc 89);
    min_lon = floats.integer (pos 180);
    max_lon = floats.integer (negsuc 179);
  }

  unfoldable pub extend : Extent F → RouteCoord F → Extent F
  extend e c = record {
    min_lat = floats.minimum e.min_lat c.lat;
    max_lat = floats.maximum e.max_lat c.lat;
    min_lon = floats.minimum e.min_lon c.lon;
    max_lon = floats.maximum e.max_lon c.lon;
  }

  -- The loop over a ring's points, none for an invalid coordinate.
  unfoldable pub extent_from : Extent F → List (RouteCoord F) → Option (Extent F)
  extent_from e [] = some e
  extent_from e (c ∷ ring) = if not (valid_coord c) then none else extent_from (extend e c) ring

  unfoldable pub too_wide : Extent F → Bool
  too_wide e =
      floats.above (distance_meters e.min_lat e.min_lon e.max_lat e.max_lon)
        (floats.integer (pos 2000))

  module _ (print : ℕ → String) where
    -- One turn of the loop over the exclusions: the error's text, none for nil.
    unfoldable pub check_ring : ℕ → List (RouteCoord F) → Option String
    check_ring i ring =
        if ltb (length ring) 3 || ltb max_exclusion_points (length ring)
        then some
            (ring_error print i (append "needs 3-" (append (print max_exclusion_points) " points")))
        else elim (extent_from no_extent ring) [
          | none ↦ some (ring_error print i "invalid coordinate")
          | some e ↦ if too_wide e then some (ring_error print i "larger than 2000 m") else none
        ]

    unfoldable pub check_rings : ℕ → List (List (RouteCoord F)) → Option String
    check_rings i [] = none
    check_rings i (ring ∷ rings) =
        let rest = check_rings (suc i) rings in
        elim (check_ring i ring) [ some text ↦ some text | none ↦ rest ]

    unfoldable pub validate : RerouteRequest F → Option String
    validate r =
        if not (fits_range 0 359 r.from_heading)
        then some "fromHeading must be 0-359"
        else if not (fits_range 1 180 r.from_heading_tolerance)
        then some "fromHeadingTolerance must be 1-180"
        else if ltb max_exclusion_polygons (length r.exclusions)
        then some (append "at most " (append (print max_exclusion_polygons) " exclusions"))
        else check_rings 0 r.exclusions

    -- RerouteHandler.Reroute; `decode` reads the body and `marshal` writes it again.
    module _ {S : Type 0} (redis : Redis S) (codec : Codec) (max_depth : ℤ) (run : Run S)
        (decode : Request → Decoded (RerouteRequest F))
        (marshal : RerouteRequest F → Option String) where
      unfoldable pub reroute : Request → Headers → S → Response × S
      reroute r headers s = elim r.ctx.claims [
        | none ↦ (http_error "unauthorized" 401 headers, s)
        | some claims ↦ elim (decode_body (decode r) headers) [
          | inl refusal ↦ (refusal, s)
          | inr req ↦ elim (validate req) [
            | some text ↦ (http_error text 400 headers, s)
            | none ↦
                stream_job redis codec max_depth run stream_rerouting (marshal req) claims headers s
          ]
        ]
      ]
