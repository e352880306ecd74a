-- ===== src/Handlers/Reroute/Accepted.antt =====
-- internal/handlers/reroute.go: which reroute requests become jobs.
use swayrider_api.Base.{
  ℕ, suc, String, append, ◌≡◌, refl, sym, ◌∙◌, ◌⊎◌, inl, inr, ◌↔◌, ◌≤◌, Bool, true, false, ◌||◌,
  Option, none, some, List, [], ◌∷◌, ltb, length, ℤ, pos, negsuc, All, arith, map, Bool-cases,
  Option-cases, true_not_false, if-true,
}
use swayrider_api.Http.{Headers, Request, Response, Claims, http_error}
use swayrider_api.Queue.{Redis, Codec, stream_rerouting}
use swayrider_api.Handlers.Stream.{
  Decoded, decoded, too_large, malformed, decode_body, Run, stream_job,
}
use swayrider_api.Handlers.Route.{RouteCoord, RerouteRequest}
use swayrider_api.Handlers.Reroute.{
  Floats, Extent, fits_range, valid_coord, no_extent, extend, extent_from, too_wide,
  distance_meters, radians, check_ring, check_rings, validate, reroute, max_exclusion_polygons,
  ring_error,
}

-- A value that is there is between the bounds.
abbrev pub IsWithin : ℕ → ℕ → Option ℤ → Type 0
IsWithin lo hi none = Unit
IsWithin lo hi (some (pos k)) = (lo ≤ k) × (k ≤ hi)
IsWithin lo hi (some (negsuc k)) = ⊥

fits_range-IsWithin : (lo hi : ℕ) (o : Option ℤ) → (fits_range lo hi o ≡ true) ↔ IsWithin lo hi o
fits_range-IsWithin lo hi none = (λ e. tt, λ h. refl)
fits_range-IsWithin lo hi (some (pos k)) =
    (λ e. (ground (arith, e), ground (arith, e)), λ h. ground (arith, h))
fits_range-IsWithin lo hi (some (negsuc k)) = (λ e. cc, λ h. absurd h)

body_cases :
    {A : Type 0} (d : Decoded A) (headers : Headers)
    → ((refusal : Response) × (decode_body d headers ≡ inl refusal))
      ⊎ ((a : A) × (d ≡ decoded a) × (decode_body d headers ≡ inr a))
unfolding decode_body
body_cases (decoded a) headers = inr (a, refl, refl)
body_cases too_large headers = inl (_, refl)
body_cases malformed headers = inl (_, refl)

module _ {F : Type 0} (floats : Floats F) where
  -- The extent of all points, whether they are valid or not.
  abbrev pub extent_of : Extent F → List (RouteCoord F) → Extent F
  extent_of e [] = e
  extent_of e (c ∷ ring) = extent_of (extend floats e c) ring

  -- A latitude of -90 to 90 and a longitude of -180 to 180; negsuc n is the number -(n + 1).
  abbrev pub IsCoord : RouteCoord F → Type 0
  IsCoord c =
      (floats.is_nan c.lat ≡ false)
      × (floats.is_nan c.lon ≡ false)
      × (floats.at_most (floats.integer (negsuc 89)) c.lat ≡ true)
      × (floats.at_most c.lat (floats.integer (pos 90)) ≡ true)
      × (floats.at_most (floats.integer (negsuc 179)) c.lon ≡ true)
      × (floats.at_most c.lon (floats.integer (pos 180)) ≡ true)

  -- The least and the greatest of some values and a first one.
  abbrev pub least : F → List F → F
  least m [] = m
  least m (x ∷ xs) = least (floats.minimum m x) xs

  abbrev pub greatest : F → List F → F
  greatest m [] = m
  greatest m (x ∷ xs) = greatest (floats.maximum m x) xs

  abbrev pub in_radians : F → F
  in_radians degrees = floats.over (floats.times degrees floats.pi) (floats.integer (pos 180))

  -- The haversine formula, in metres.
  abbrev pub haversine : F → F → F → F → F
  haversine lat₁ lon₁ lat₂ lon₂ =
      let sin_lat =
        floats.sin (floats.over (in_radians (floats.minus lat₂ lat₁)) (floats.integer (pos 2))) in
      let sin_lon =
        floats.sin (floats.over (in_radians (floats.minus lon₂ lon₁)) (floats.integer (pos 2))) in
      let both = floats.times (floats.cos (in_radians lat₁)) (floats.cos (in_radians lat₂)) in
      let h =
        floats.plus (floats.times sin_lat sin_lat)
          (floats.times (floats.times both sin_lon) sin_lon) in
      floats.times (floats.times (floats.integer (pos 2)) floats.earth_radius)
        (floats.asin (floats.minimum (floats.integer (pos 1)) (floats.sqrt h)))

  -- From its south-west to its north-east corner the bounding box measures at most 2000 m.
  abbrev pub IsNarrow : List F → List F → Type 0
  IsNarrow lats lons =
      floats.above
        (haversine (least (floats.integer (pos 90)) lats) (least (floats.integer (pos 180)) lons)
          (greatest (floats.integer (negsuc 89)) lats)
          (greatest (floats.integer (negsuc 179)) lons))
        (floats.integer (pos 2000))
      ≡ false

  abbrev pub IsRing : List (RouteCoord F) → Type 0
  IsRing ring =
      (3 ≤ length ring)
      × (length ring ≤ 40)
      × All IsCoord ring
      × IsNarrow (map (λ c. c.lat) ring) (map (λ c. c.lon) ring)

  valid_coord-IsCoord : (c : RouteCoord F) → (valid_coord floats c ≡ true) ↔ IsCoord c
  unfolding valid_coord
  valid_coord-IsCoord c = (
    λ e. (
      ground (arith, e),
      ground (arith, e),
      ground (arith, e),
      ground (arith, e),
      ground (arith, e),
      ground (arith, e),
    ),
    λ (a, b, c, d, e, f). rw (a, b, c, d, e, f) refl,
  )

  valid_coord-All :
      (ring : List (RouteCoord F)) → All (λ c. valid_coord floats c ≡ true) ring ↔ All IsCoord ring
  valid_coord-All [] = (λ h. h, λ h. h)
  valid_coord-All (c ∷ ring) = (
    λ h. ((valid_coord-IsCoord c).0 h.0, (valid_coord-All ring).0 h.1),
    λ h. ((valid_coord-IsCoord c).1 h.0, (valid_coord-All ring).1 h.1),
  )

  extent_of-least :
      (e : Extent F) (ring : List (RouteCoord F))
      → ((extent_of e ring).min_lat ≡ least e.min_lat (map (λ c. c.lat) ring))
        × ((extent_of e ring).max_lat ≡ greatest e.max_lat (map (λ c. c.lat) ring))
        × ((extent_of e ring).min_lon ≡ least e.min_lon (map (λ c. c.lon) ring))
        × ((extent_of e ring).max_lon ≡ greatest e.max_lon (map (λ c. c.lon) ring))
  unfolding extend
  extent_of-least e [] = (refl, refl, refl, refl)
  extent_of-least e (c ∷ ring) = extent_of-least (extend floats e c) ring

  -- A ring as the validator's own functions see it
  Passes : List (RouteCoord F) → Type 0
  Passes ring =
      (3 ≤ length ring)
      × (length ring ≤ 40)
      × All (λ c. valid_coord floats c ≡ true) ring
      × (too_wide floats (extent_of (no_extent floats) ring) ≡ false)

  same_box :
      {a b c d a' b' c' d' : F} (f : F → F → F → F → Bool)
      → a ≡ a'
      → b ≡ b'
      → c ≡ c'
      → d ≡ d'
      → f a b c d ≡ f a' b' c' d'
  same_box f p q r s = rw (p, q, r, s) refl

  Passes-IsRing : (ring : List (RouteCoord F)) → Passes ring ↔ IsRing ring
  unfolding Passes too_wide distance_meters radians
  Passes-IsRing ring =
      let (a, b, c, d) = extent_of-least (no_extent floats) ring in
      let same =
        same_box (λ w x y z. floats.above (haversine w x y z) (floats.integer (pos 2000))) a c b
          d in
      (
        λ (h, k, v, w). (h, k, (valid_coord-All ring).0 v, sym same ∙ w),
        λ (h, k, v, w). (h, k, (valid_coord-All ring).1 v, same ∙ w),
      )

  pub record IsAccepted (r : RerouteRequest F) : Type 0 where
    pub heading : IsWithin 0 359 r.from_heading
    pub tolerance : IsWithin 1 180 r.from_heading_tolerance
    pub few : length r.exclusions ≤ 6
    pub rings : All IsRing r.exclusions

  extent_from-cases :
      (e : Extent F) (ring : List (RouteCoord F))
      → (All (λ c. valid_coord floats c ≡ true) ring
          × (extent_from floats e ring ≡ some (extent_of e ring)))
        ⊎ ((All (λ c. valid_coord floats c ≡ true) ring → ⊥) × (extent_from floats e ring ≡ none))
  unfolding extent_from
  extent_from-cases e [] = inl (tt, refl)
  extent_from-cases e (c ∷ ring) = elim (Bool-cases (valid_coord floats c)) [
    | inl yes_valid ↦ elim (extent_from-cases (extend floats e c) ring) [
      | inl (h, x) ↦ inl ((yes_valid, h), rw yes_valid x)
      | inr (h, x) ↦ inr (λ a. h a.1, rw yes_valid x)
    ]
    | inr bad ↦ inr (λ a. true_not_false (sym a.0 ∙ bad), rw bad refl)
  ]

  module _ (print : ℕ → String) where
    check_ring-Passes :
        (i : ℕ) (ring : List (RouteCoord F))
        → (Passes ring × (check_ring floats print i ring ≡ none))
          ⊎ ((Passes ring → ⊥) × (text : String) × (check_ring floats print i ring ≡ some text))
    unfolding check_ring Passes
    check_ring-Passes i ring =
        let size = ltb (length ring) 3 || ltb 40 (length ring) in
        elim (Bool-cases size) [
          | inl bad ↦ inr (λ (h, k, v, w). ground (arith, h, k, bad), _, if-true _ _ _ bad)
          | inr ok ↦ elim (extent_from-cases (no_extent floats) ring) [
            | inr (h, x) ↦
                inr (λ (l, u, v, w). h v, ring_error print i "invalid coordinate", rw (ok, x) refl)
            | inl (h, x) ↦ elim (Bool-cases (too_wide floats (extent_of (no_extent floats) ring))) [
              | inl wide ↦ inr (
                λ (l, u, v, w). true_not_false (sym wide ∙ w),
                ring_error print i "larger than 2000 m",
                rw (ok, x, wide) refl,
              )
              | inr fine ↦
                  inl ((ground (arith, ok), ground (arith, ok), h, fine), rw (ok, x, fine) refl)
            ]
          ]
        ]

    check_ring-cases :
        (i : ℕ) (ring : List (RouteCoord F))
        → (IsRing ring × (check_ring floats print i ring ≡ none))
          ⊎ ((IsRing ring → ⊥) × (text : String) × (check_ring floats print i ring ≡ some text))
    check_ring-cases i ring = elim (check_ring-Passes i ring) [
      | inl (h, x) ↦ inl ((Passes-IsRing ring).0 h, x)
      | inr (h, text, x) ↦ inr (λ k. h ((Passes-IsRing ring).1 k), text, x)
    ]

    check_rings-cases :
        (i : ℕ) (rings : List (List (RouteCoord F)))
        → (All IsRing rings × (check_rings floats print i rings ≡ none))
          ⊎ ((All IsRing rings → ⊥)
              × (text : String) × (check_rings floats print i rings ≡ some text))
    unfolding check_rings
    check_rings-cases i [] = inl (tt, refl)
    check_rings-cases i (ring ∷ rings) = elim (check_ring-cases i ring) [
      | inr (h, text, x) ↦ inr (λ a. h a.0, text, rw (check_rings, x) refl)
      | inl (h, x) ↦ elim (check_rings-cases (suc i) rings) [
        | inr (h', text, y) ↦ inr (λ a. h' a.1, text, rw (check_rings, x, y) refl)
        | inl (h', y) ↦ inl ((h, h'), rw (check_rings, x, y) refl)
      ]
    ]

    validate-cases :
        (r : RerouteRequest F)
        → (IsAccepted r × (validate floats print r ≡ none))
          ⊎ ((IsAccepted r → ⊥) × (text : String) × (validate floats print r ≡ some text))
    unfolding validate
    validate-cases r = elim (Bool-cases (fits_range 0 359 r.from_heading)) [
      | inr bad ↦ inr (
        λ a. true_not_false (sym ((fits_range-IsWithin 0 359 r.from_heading).1 a.heading) ∙ bad),
        "fromHeading must be 0-359",
        rw bad refl,
      )
      | inl heading ↦ elim (Bool-cases (fits_range 1 180 r.from_heading_tolerance)) [
        | inr bad ↦ inr (
          λ a.
              true_not_false
                (sym ((fits_range-IsWithin 1 180 r.from_heading_tolerance).1 a.tolerance) ∙ bad),
          "fromHeadingTolerance must be 1-180",
          rw (heading, bad) refl,
        )
        | inl tolerance ↦ elim (Bool-cases (ltb 6 (length r.exclusions))) [
          | inl many ↦ inr (
            λ a. ground (arith, a.few, many),
            append "at most " (append (print max_exclusion_polygons) " exclusions"),
            rw (heading, tolerance, many) refl,
          )
          | inr few ↦ elim (check_rings-cases 0 r.exclusions) [
            | inr (h, text, x) ↦ inr (λ a. h a.rings, text, rw (heading, tolerance, few) x)
            | inl (h, x) ↦ inl (
              record {
                heading = (fits_range-IsWithin 0 359 r.from_heading).0 heading;
                tolerance = (fits_range-IsWithin 1 180 r.from_heading_tolerance).0 tolerance;
                few = ground (arith, few);
                rings = h;
              },
              rw (heading, tolerance, few) x,
            )
          ]
        ]
      ]
    ]

    -- validate answers nil exactly for the accepted requests: a heading of 0 to 359 and a tolerance of 1
    -- to 180 where they are there, at most six rings of 3 to 40 points each with a latitude of -90 to 90
    -- and a longitude of -180 to 180, and no ring whose bounding box measures more than 2000 m from
    -- corner to corner by the haversine formula.
    pub validate-IsAccepted :
        (r : RerouteRequest F) → (validate floats print r ≡ none) ↔ IsAccepted r
    validate-IsAccepted r = elim (validate-cases r) [
      | inl (h, x) ↦ (λ e. h, λ a. x)
      | inr (h, text, x) ↦ (λ e. cc (e, x), λ a. absurd (h a))
    ]

    module _ {S : Type 0} (redis : Redis S) (codec : Codec) (max_depth : ℤ) (run : Run S)
        (decode : Request → Decoded (RerouteRequest F))
        (marshal : RerouteRequest F → Option String) where
      -- Reroute submits a job only for an accepted request with claims: it leaves the state as it is, or
      -- it answers as streamJob does for the rerouting stream and the JSON of that request.
      pub reroute-IsAccepted :
          (r : Request) (headers : Headers) (s : S)
          → ((refusal : Response) × (reroute floats print redis codec max_depth run decode marshal r
                  headers s
                ≡ (refusal, s)))
            ⊎ ((claims : Claims) × (req : RerouteRequest F) × (r.ctx.claims ≡ some claims)
                × (decode r ≡ decoded req)
                × IsAccepted req
                × (reroute floats print redis codec max_depth run decode marshal r headers s
                    ≡ stream_job redis codec max_depth run stream_rerouting
                        (marshal req)
                        claims
                        headers
                        s))
      unfolding reroute
      reroute-IsAccepted r headers s = elim (Option-cases r.ctx.claims) [
        | inl n ↦ inl (http_error "unauthorized" 401 headers, rw (reroute, n) refl)
        | inr (claims, x) ↦ elim (body_cases (decode r) headers) [
          | inl (refusal, y) ↦ inl (refusal, rw (reroute, x, y) refl)
          | inr (req, d, y) ↦ elim (validate-cases req) [
            | inr (h, text, z) ↦ inl (http_error text 400 headers, rw (reroute, x, y, z) refl)
            | inl (h, z) ↦ inr (claims, req, x, d, h, rw (reroute, x, y, z) refl)
          ]
        ]
      ]
