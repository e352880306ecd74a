-- ===== src/Handlers/Regions/Failing.antt =====
-- internal/handlers/region.go: refused bodies, and errors of regionservice.
use swayrider_api.Base.{String, List, [], ◌∷◌, inl, All}
use swayrider_api.Http.{Handler}
use swayrider_api.Grpc.{GoError}
use swayrider_api.Handlers.Answers.{Env, answer}
use swayrider_api.Handlers.Answers.Steps.{write_error-IsFailure}
use swayrider_api.Handlers.Auth.Failing.{Fails, with_body-Fails}
use swayrider_api.Handlers.Regions.{
  RegionClient, RegionCodec, search_point, search_box, search_radius, find_crossing_locations,
  find_region_path, find_route_region_paths,
}

-- Every call fails with `e`, and may change the state all the same.
abbrev pub failing_regions : {F R B S : Type 0} → GoError → (S → S) → RegionClient F R B S
failing_regions e touch = record {
  search_point = λ t p x s. (inl e, touch s);
  search_box = λ t b x s. (inl e, touch s);
  search_radius = λ t p r x s. (inl e, touch s);
  find_crossing_locations = λ t a b p q c n s. (inl e, touch s);
  find_region_path = λ t a b s. (inl e, touch s);
  find_route_region_paths = λ t ps x s. (inl e, touch s);
}

module _ {F R B S : Type 0} (env : Env) (codec : RegionCodec F R B) (token : String) where
  abbrev pub region_handlers : RegionClient F R B S → List (Handler S)
  region_handlers client =
      search_point env codec client token
      ∷ search_box env codec client token
      ∷ search_radius env codec client token
      ∷ find_crossing_locations env codec client token
      ∷ find_region_path env codec client token
      ∷ find_route_region_paths env codec client token
      ∷ []

  -- While every call of regionservice fails, each region handler answers each request with a status of
  -- 400 or above and sets no cookie.
  pub failing_regions-Fails :
      (e : GoError) (touch : S → S) → All Fails (region_handlers (failing_regions e touch))
  unfolding search_point search_box search_radius find_crossing_locations find_region_path
      find_route_region_paths answer
  failing_regions-Fails e touch =
      let bad = write_error-IsFailure env e in
      (
        with_body-Fails _ _ (λ q r s. bad),
        (
          with_body-Fails _ _ (λ q r s. bad),
          (
            with_body-Fails _ _ (λ q r s. bad),
            (
              with_body-Fails _ _ (λ q r s. bad),
              (with_body-Fails _ _ (λ q r s. bad), (with_body-Fails _ _ (λ q r s. bad), tt)),
            ),
          ),
        ),
      )
