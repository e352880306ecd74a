-- ===== src/Handlers/Search.antt =====
-- internal/handlers/search.go: the requests, the queries to searchservice, the worker's function and
-- Autocomplete. Coordinates and confidences are values of a type F that nothing here looks into.
-- The search client, encoding/json and the service token are parameters.
pub mod Kinds
use swayrider_api.Base.{
  ℕ, String, append, Bool, true, false, Option, none, some, List, [], ◌∷◌, ◌==◌, ◌⊎◌, inl, inr, map,
  if◌then◌else◌, ℤ,
}
use swayrider_api.Http.{Headers, Request, Response, Handler, http_error}
use swayrider_api.Grpc.{GoError}
use swayrider_api.Queue.{Job}
use swayrider_api.Handlers.Stream.{Decoded, decoded, too_large, malformed}
use swayrider_api.Handlers.Upstream.{Metadata, user_metadata, Breaker, map_result, then_result}

pub record Coord (F : Type 0) : Type 0 where
  pub lat : F
  pub lon : F

pub record BBox (F : Type 0) : Type 0 where
  pub bottom_left : Coord F
  pub top_right : Coord F

pub record SearchRequest (F : Type 0) : Type 0 where
  pub text : String
  pub viewport : BBox F
  pub focus_point : Option (Coord F)
  pub size : ℤ
  pub language : String

pub record ReverseGeocodeRequest (F : Type 0) : Type 0 where
  pub lat : F
  pub lon : F
  pub size : ℤ
  pub language : String

pub record AutocompleteRequest (F : Type 0) : Type 0 where
  pub text : String
  pub focus_point : Coord F
  pub size : ℤ
  pub language : String
  pub target_housenumber : String

-- searchclient's queries, with the fields that the code sets.
pub record SearchQuery (F : Type 0) : Type 0 where
  pub text : String
  pub viewport : BBox F
  pub focus_point : Option (Coord F)
  pub size : ℤ
  pub language : String

pub record ReverseGeocodeQuery (F : Type 0) : Type 0 where
  pub point : Coord F
  pub size : ℤ
  pub language : String

pub record AutocompleteQuery (F : Type 0) : Type 0 where
  pub text : String
  pub focus_point : Coord F
  pub size : ℤ
  pub language : String
  pub target_housenumber : String

-- searchResultImpl
pub record SearchResult (F : Type 0) : Type 0 where
  pub label : String
  pub locality : String
  pub region : String
  pub country : String
  pub confidence : F
  pub layer : String
  pub lat : F
  pub lon : F
  pub street : String
  pub house_number : String
  pub id : String
  pub local_admin : String
  pub country_code : String
  pub name : String

-- queue.SearchItem
pub record SearchItem (F : Type 0) : Type 0 where
  pub label : String
  pub locality : String
  pub region : String
  pub country : String
  pub confidence : F
  pub layer : String
  pub lat : F
  pub lon : F
  pub street : String
  pub house_number : String
  pub id : String
  pub local_admin : String
  pub country_code : String
  pub name : String

pub record SearchClient (F W : Type 0) : Type 0 where
  pub search : Metadata → String → SearchQuery F → W → (GoError ⊎ List (SearchResult F)) × W
  pub reverse_geocode :
      Metadata → String → ReverseGeocodeQuery F → W → (GoError ⊎ List (SearchResult F)) × W
  pub autocomplete : String → AutocompleteQuery F → W → (GoError ⊎ List (SearchResult F)) × W

-- encoding/json on the bodies and the payloads. The payload of a job is an object of a kind and a
-- request, which is kept as raw text when the payload is read.
pub record SearchCodec (F : Type 0) : Type 0 where
  pub decode_search : Request → Decoded (SearchRequest F)
  pub decode_reverse : Request → Decoded (ReverseGeocodeRequest F)
  pub decode_autocomplete : Request → Decoded (AutocompleteRequest F)
  pub marshal_search : String → SearchRequest F → Option String
  pub marshal_reverse : String → ReverseGeocodeRequest F → Option String
  pub unmarshal_envelope : String → GoError ⊎ (String × String)
  pub unmarshal_search : String → GoError ⊎ SearchRequest F
  pub unmarshal_reverse : String → GoError ⊎ ReverseGeocodeRequest F
  pub marshal_items : List (SearchItem F) → GoError ⊎ String
  pub encode_items : List (SearchItem F) → String

module _ {F : Type 0} where
  unfoldable pub to_search_item : SearchResult F → SearchItem F
  to_search_item r = record {
    label = r.label;
    locality = r.locality;
    region = r.region;
    country = r.country;
    confidence = r.confidence;
    layer = r.layer;
    lat = r.lat;
    lon = r.lon;
    street = r.street;
    house_number = r.house_number;
    id = r.id;
    local_admin = r.local_admin;
    country_code = r.country_code;
    name = r.name;
  }

  unfoldable pub to_search_items : List (SearchResult F) → List (SearchItem F)
  to_search_items results = map to_search_item results

  unfoldable pub search_query : SearchRequest F → SearchQuery F
  search_query req = record {
    text = req.text;
    viewport = req.viewport;
    focus_point = req.focus_point;
    size = req.size;
    language = req.language;
  }

  unfoldable pub reverse_query : ReverseGeocodeRequest F → ReverseGeocodeQuery F
  reverse_query req = record {
    point = record { lat = req.lat; lon = req.lon };
    size = req.size;
    language = req.language;
  }

  unfoldable pub autocomplete_query : AutocompleteRequest F → AutocompleteQuery F
  autocomplete_query req = record {
    text = req.text;
    focus_point = req.focus_point;
    size = req.size;
    language = req.language;
    target_housenumber = req.target_housenumber;
  }

-- fmt.Errorf, an error without a gRPC status
unfoldable pub unknown_kind : String → GoError
unknown_kind kind = record { code = 2; message = none; text = append "unknown search kind: " kind }

module _ {F : Type 0} (codec : SearchCodec F) where
  -- What buildPayload does with the decoded body: an error of json.Marshal is an invalid body.
  abbrev pub marshalled : {A : Type 0} → (A → Option String) → Decoded A → Decoded String
  marshalled marshal (decoded a) = elim (marshal a) [
    | some payload ↦ decoded payload
    | none ↦ malformed
  ]
  marshalled marshal too_large = too_large
  marshalled marshal malformed = malformed

  -- buildPayload of Search and of ReverseGeocode
  unfoldable pub search_payload : Request → Decoded String
  search_payload r = marshalled (codec.marshal_search "search") (codec.decode_search r)

  unfoldable pub reverse_payload : Request → Decoded String
  reverse_payload r = marshalled (codec.marshal_reverse "reverse") (codec.decode_reverse r)

  module _ {W : Type 0} (client : SearchClient F W) (token : String) (breaker : Breaker W) where
    -- A call through the breaker, its items, and their JSON.
    abbrev pub items_of :
        (W → (GoError ⊎ List (SearchResult F)) × W) → W → (GoError ⊎ List (SearchItem F)) × W
    items_of call w = let a = call w in (map_result to_search_items a.0, a.1)

    unfoldable pub run_search : Metadata → SearchRequest F → W → (GoError ⊎ String) × W
    run_search ctx req w =
        let r =
          breaker.execute "searchservice" (items_of (client.search ctx token (search_query req)))
            w in
        (then_result r.0 codec.marshal_items, r.1)

    unfoldable pub run_reverse_geocode :
        Metadata → ReverseGeocodeRequest F → W → (GoError ⊎ String) × W
    run_reverse_geocode ctx req w =
        let r =
          breaker.execute "searchservice"
            (items_of (client.reverse_geocode ctx token (reverse_query req))) w in
        (then_result r.0 codec.marshal_items, r.1)

    -- The switch of the worker's function.
    unfoldable pub run_kind : Metadata → String × String → W → (GoError ⊎ String) × W
    run_kind ctx (kind, raw) w =
        if kind == "search"
        then elim (codec.unmarshal_search raw) [
          | inl err ↦ (inl err, w)
          | inr req ↦ run_search ctx req w
        ]
        else if kind == "reverse"
        then elim (codec.unmarshal_reverse raw) [
          | inl err ↦ (inl err, w)
          | inr req ↦ run_reverse_geocode ctx req w
        ]
        else (inl (unknown_kind kind), w)

    -- NewSearchProcessFn
    unfoldable pub search_process : Job → W → (GoError ⊎ String) × W
    search_process job w = elim (codec.unmarshal_envelope job.payload) [
      | inl err ↦ (inl err, w)
      | inr envelope ↦ run_kind (user_metadata job) envelope w
    ]

    -- SearchHandler.Autocomplete
    unfoldable pub autocomplete : Handler W
    autocomplete r w = elim r.ctx.claims [
      | none ↦ (http_error "unauthorized" 401 [], w)
      | some claims ↦ elim (codec.decode_autocomplete r) [
        | decoded req ↦
            let a =
              breaker.execute "searchservice"
                (items_of (client.autocomplete token (autocomplete_query req))) w in
            (
              elim a.0 [
                | inl err ↦ http_error "internal error" 500 []
                | inr items ↦ record {
                  status = 200;
                  headers = ("Content-Type", "application/json") ∷ [];
                  body = codec.encode_items items;
                }
              ],
              a.1,
            )
        | _ ↦ (http_error "invalid request body" 400 [], w)
      ]
    ]
