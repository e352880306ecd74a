-- ===== src/Handlers/Search/Kinds.antt =====
-- internal/handlers/search.go: a search job from the handler's payload to the worker's query.
use swayrider_api.Base.{
  String, ◌≡◌, refl, ap, ◌∙◌, map, ◌⊎◌, inl, inr, Option, some, List, [], ◌∷◌, Option-cases,
}
use swayrider_api.Http.{Request}
use swayrider_api.Grpc.{GoError}
use swayrider_api.Queue.{Job}
use swayrider_api.Handlers.Stream.{Decoded, decoded, too_large, malformed}
use swayrider_api.Handlers.Upstream.{user_metadata, Breaker, IsClosed, map_result, then_result}
use swayrider_api.Handlers.Search.{
  SearchRequest, ReverseGeocodeRequest, SearchResult, SearchItem, SearchClient, SearchCodec,
  marshalled, search_payload, reverse_payload, to_search_item, to_search_items, search_query,
  reverse_query, run_search, run_reverse_geocode, run_kind, search_process,
}

-- A payload that encoding/json wrote is read back as it was, with its kind.
pub record SearchLaws {F : Type 0} (codec : SearchCodec F) : Type 0 where
  pub search_round_trip :
      (kind payload : String) (req : SearchRequest F)
      → codec.marshal_search kind req ≡ some payload
      → (raw : String) × (codec.unmarshal_envelope payload ≡ inr (kind, raw))
        × (codec.unmarshal_search raw ≡ inr req)
  pub reverse_round_trip :
      (kind payload : String) (req : ReverseGeocodeRequest F)
      → codec.marshal_reverse kind req ≡ some payload
      → (raw : String) × (codec.unmarshal_envelope payload ≡ inr (kind, raw))
        × (codec.unmarshal_reverse raw ≡ inr req)

marshalled-decoded :
    {F A : Type 0} (codec : SearchCodec F) (marshal : A → Option String) (d : Decoded A)
    (payload : String)
    → marshalled codec marshal d ≡ decoded payload
    → (a : A) × (d ≡ decoded a) × (marshal a ≡ some payload)
marshalled-decoded codec marshal (decoded a) payload e = elim (Option-cases (marshal a)) [
  | inl n ↦ cc (e, n)
  | inr (p, x) ↦ (a, refl, cc (e, x))
]
marshalled-decoded codec marshal too_large payload e = cc
marshalled-decoded codec marshal malformed payload e = cc

-- The metadata of a call for the user of a job.
abbrev pub caller_of : Job → List (String × String)
caller_of job =
    ("x-user-id", job.user_id)
    ∷ ("x-account-level", job.account_level)
    ∷ ("x-is-admin", job.is_admin)
    ∷ ("x-user-verified", job.user_verified)
    ∷ []

-- The item that a client sees for a result, field by field.
abbrev pub shown : {F : Type 0} → SearchResult F → SearchItem F
shown r = record {
  label = r.label;
  locality = r.locality;
  region = r.region;
  country = r.country;
  confidence = r.confidence;
  layer = r.layer;
  lat = r.lat;
  lon = r.lon;
  street = r.street;
  house_number = r.house_number;
  id = r.id;
  local_admin = r.local_admin;
  country_code = r.country_code;
  name = r.name;
}

-- What the caller gets for a query's results: their items as JSON, or the first error.
abbrev pub json_of :
    {F : Type 0} → SearchCodec F → GoError ⊎ List (SearchResult F) → GoError ⊎ String
json_of codec (inl err) = inl err
json_of codec (inr results) = codec.marshal_items (map shown results)

abbrev pub delivered :
    {F W : Type 0} → SearchCodec F → (GoError ⊎ List (SearchResult F)) × W → (GoError ⊎ String) × W
delivered codec answered = (json_of codec answered.0, answered.1)

json_of_lem :
    {F : Type 0} (codec : SearchCodec F) (answered : GoError ⊎ List (SearchResult F))
    → then_result (map_result to_search_items answered) codec.marshal_items ≡ json_of codec answered
unfolding then_result map_result to_search_items to_search_item
json_of_lem codec (inl err) = refl
json_of_lem codec (inr results) = refl

delivered_lem :
    {F W : Type 0} (codec : SearchCodec F) (answered : (GoError ⊎ List (SearchResult F)) × W)
    → ◌≡◌ {A = (GoError ⊎ String) × W}
        (then_result (map_result to_search_items answered.0) codec.marshal_items, answered.1)
        (delivered codec answered)
delivered_lem codec answered = ap (λ j. (j, answered.1)) (json_of_lem codec answered.0)

module _ {F W : Type 0} (codec : SearchCodec F) (laws : SearchLaws codec)
    (client : SearchClient F W) (token : String) (breaker : Breaker W) where
  -- Where encoding/json reads a payload back as it wrote it: the payload that Search builds for a
  -- request, once a worker runs it behind a closed breaker, gives searchservice's error or the JSON of
  -- its results, field by field, for the query with the text, viewport, focus point, size and language
  -- of the request's body, sent with the user, the level and the flags of the job.
  pub search_process-search_payload :
      (r : Request) (job : Job) (w : W)
      → IsClosed breaker "searchservice" w
      → search_payload codec r ≡ decoded job.payload
      → (req : SearchRequest F) × (codec.decode_search r ≡ decoded req)
        × (search_process codec client token breaker job w
            ≡ delivered codec (
                client.search
                  (caller_of job)
                  token
                  (record {
                    text = req.text;
                    viewport = req.viewport;
                    focus_point = req.focus_point;
                    size = req.size;
                    language = req.language;
                  })
                  w))
  unfolding search_query user_metadata search_payload search_process run_kind run_search
  search_process-search_payload r job w closed e =
      let (req, d, m) =
        marshalled-decoded codec (codec.marshal_search "search") (codec.decode_search r) job.payload
          e in
      let (raw, envelope, request) = laws.search_round_trip "search" job.payload req m in
      (
        req,
        d,
        rw (search_process, envelope, request)
              (ap
                (λ (a : (GoError ⊎ List (SearchItem F)) × W).
                  (then_result a.0 codec.marshal_items, a.1))
                (closed _ _))
            ∙ delivered_lem codec (client.search (user_metadata job) token (search_query req) w),
      )

  -- The same for ReverseGeocode: the payload that it builds, run behind a closed breaker, gives
  -- exactly what searchservice answers for the point of the request's body and the job's user.
  pub search_process-reverse_payload :
      (r : Request) (job : Job) (w : W)
      → IsClosed breaker "searchservice" w
      → reverse_payload codec r ≡ decoded job.payload
      → (req : ReverseGeocodeRequest F) × (codec.decode_reverse r ≡ decoded req)
        × (search_process codec client token breaker job w
            ≡ delivered codec
                (client.reverse_geocode (user_metadata job) token (reverse_query req) w))
  unfolding reverse_payload search_process run_kind run_reverse_geocode
  search_process-reverse_payload r job w closed e =
      let (req, d, m) =
        marshalled-decoded codec (codec.marshal_reverse "reverse") (codec.decode_reverse r)
          job.payload e in
      let (raw, envelope, request) = laws.reverse_round_trip "reverse" job.payload req m in
      (
        req,
        d,
        rw (search_process, envelope, request)
              (ap
                (λ (a : (GoError ⊎ List (SearchItem F)) × W).
                  (then_result a.0 codec.marshal_items, a.1))
                (closed _ _))
            ∙ delivered_lem codec
                (client.reverse_geocode (user_metadata job) token (reverse_query req) w),
      )
