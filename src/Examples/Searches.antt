-- ===== src/Examples/Searches.antt =====
-- A search and a reverse geocode from the request to searchservice (internal/handlers/search.go), with
-- a codec that writes a mark and one text, and refuses requests with other fields.
use swayrider_api.Base.{
  ℕ, zero, suc, String, ◌≡◌, refl, sym, ap, ◌∙◌, ◌⊎◌, inl, inr, false, Option, none, some, [], ◌∷◌,
  ◌==◌, eq_iff, if◌then◌else◌, ℤ, pos, negsuc, eqb, code, Bool-cases, subst, if-true, if-false,
}
use swayrider_api.Http.{Request, no_context}
use swayrider_api.Grpc.{GoError}
use swayrider_api.Queue.{Job}
use swayrider_api.Handlers.Stream.{decoded, malformed}
use swayrider_api.Handlers.Upstream.{Breaker, IsClosed}
use swayrider_api.Handlers.Search.{
  Coord, BBox, SearchRequest, ReverseGeocodeRequest, SearchResult, SearchClient, SearchCodec,
  search_payload, search_process,
}
use swayrider_api.Handlers.Search.Kinds.{
  SearchLaws, caller_of, delivered, search_process-search_payload,
}

abbrev Nothing : Type 0
Nothing = Unit

abbrev plain : String → SearchRequest Nothing
plain text = record {
  text = text;
  viewport = record {
    bottom_left = record { lat = tt; lon = tt };
    top_right = record { lat = tt; lon = tt };
  };
  focus_point = none;
  size = pos 0;
  language = "";
}

abbrev spot : String → ReverseGeocodeRequest Nothing
spot language = record { lat = tt; lon = tt; size = pos 0; language = language }

write_search : ℤ → Option (Coord Nothing) → String → String → Option String
write_search (pos zero) none String.[] text = some (String.◌∷◌ "s" text)
write_search (pos zero) none (String.◌∷◌ c cs) text = none
write_search (pos zero) (some p) language text = none
write_search (pos (suc n)) focus language text = none
write_search (negsuc n) focus language text = none

write_reverse : ℤ → String → Option String
write_reverse (pos zero) language = some (String.◌∷◌ "r" language)
write_reverse (pos (suc n)) language = none
write_reverse (negsuc n) language = none

abbrev failed : GoError
failed = record { code = 2; message = none; text = "unexpected end of JSON input" }

read_envelope : String → GoError ⊎ (String × String)
read_envelope String.[] = inl failed
read_envelope (String.◌∷◌ c raw) = inr (if eqb (code c) b's' then "search" else "reverse", raw)

abbrev codec : SearchCodec Nothing
codec = record {
  decode_search = λ r. decoded (plain "brussels");
  decode_reverse = λ r. decoded (spot "nl");
  decode_autocomplete = λ r. malformed;
  marshal_search = λ kind req.
      if kind == "search"
      then write_search req.size req.focus_point req.language req.text
      else none;
  marshal_reverse =
      λ kind req. if kind == "reverse" then write_reverse req.size req.language else none;
  unmarshal_envelope = read_envelope;
  unmarshal_search = λ raw. inr (plain raw);
  unmarshal_reverse = λ raw. inr (spot raw);
  marshal_items = λ items. inr "[]";
  encode_items = λ items. "[]";
}

-- What a written payload is read as.
abbrev Reads : {A : Type 0} → String → (String → A) → A → Option String → Type 0
Reads kind read req none = Unit
Reads kind read req (some payload) =
    (raw : String) × (read_envelope payload ≡ inr (kind, raw)) × (read raw ≡ req)

search-read :
    (size : ℤ) (focus : Option (Coord Nothing)) (language text : String) (viewport : BBox Nothing)
    → Reads "search" plain
        (record {
          text = text;
          viewport = viewport;
          focus_point = focus;
          size = size;
          language = language;
        })
        (write_search size focus language text)
unfolding write_search read_envelope
search-read (pos zero) none String.[] text v = (text, refl, refl)
search-read (pos zero) none (String.◌∷◌ c cs) text v = tt
search-read (pos zero) (some p) language text v = tt
search-read (pos (suc n)) focus language text v = tt
search-read (negsuc n) focus language text v = tt

reverse-read :
    (size : ℤ) (language : String) (lat lon : Nothing)
    → Reads "reverse" spot
        (record { lat = lat; lon = lon; size = size; language = language })
        (write_reverse size language)
unfolding write_reverse read_envelope
reverse-read (pos zero) language lat lon = (language, refl, refl)
reverse-read (pos (suc n)) language lat lon = tt
reverse-read (negsuc n) language lat lon = tt

-- A payload is written for one kind only.
tagged :
    {A : Type 0} (name kind : String) (read : String → A) (req : A) (written : Option String)
    (payload : String)
    → Reads name read req written
    → (if kind == name then written else none) ≡ some payload
    → (raw : String) × (read_envelope payload ≡ inr (kind, raw)) × (read raw ≡ req)
tagged name kind read req written payload h e = elim (Bool-cases (kind == name)) [
  | inl same ↦
      let (raw, x, y) = subst (Reads name read req) (sym (if-true _ _ _ same) ∙ e) h in
      (raw, x ∙ ap (λ k. inr (k, raw)) (sym ((eq_iff _ _).0 same)), y)
  | inr other ↦ cc (if-false _ written none other, e)
]

codec-Laws : SearchLaws codec
codec-Laws = record {
  search_round_trip = λ kind payload req e.
      let (raw, x, y) =
        tagged "search" kind plain req _ payload
          (search-read req.size req.focus_point req.language req.text req.viewport) e in
      (raw, x, ap inr y);
  reverse_round_trip = λ kind payload req e.
      let (raw, x, y) =
        tagged "reverse" kind spot req _ payload
          (reverse-read req.size req.language req.lat req.lon) e in
      (raw, x, ap inr y);
}

abbrev grand_place : SearchResult Nothing
grand_place = record {
  label = "Grand-Place, Brussels";
  locality = "Brussels";
  region = "";
  country = "Belgium";
  confidence = tt;
  layer = "address";
  lat = tt;
  lon = tt;
  street = "Grand-Place";
  house_number = "1";
  id = "w1";
  local_admin = "";
  country_code = "BE";
  name = "Grand-Place";
}

-- A searchservice that counts its calls.
abbrev client : SearchClient Nothing ℕ
client = record {
  search = λ ctx token q n. (inr (grand_place ∷ []), suc n);
  reverse_geocode = λ ctx token q n. (inl failed, suc n);
  autocomplete = λ token q n. (inr [], suc n);
}

abbrev breaker : Breaker ℕ
breaker = record { execute = λ name fn n. fn n }

closed : (n : ℕ) → IsClosed breaker "searchservice" n
closed n A fn = refl

abbrev job_with : String → Job
job_with payload = record {
  job_id = "j1";
  payload = payload;
  user_id = "u1";
  account_level = "";
  is_admin = "false";
  user_verified = "true";
}

abbrev request : Request
request = record {
  method = "POST";
  path = "/api/v1/search";
  remote_addr = "10.0.0.1:4000";
  tls = false;
  headers = [];
  body_limit = none;
  ctx = no_context;
}

search_built : search_payload codec request ≡ decoded "sbrussels"
unfolding search_payload write_search
search_built = refl

search_process-search_payload_example :
    (req : SearchRequest Nothing) × (codec.decode_search request ≡ decoded req)
    × (search_process codec client "t1" breaker (job_with "sbrussels") 0
        ≡ delivered codec (
            client.search
              (caller_of (job_with "sbrussels"))
              "t1"
              (record {
                text = req.text;
                viewport = req.viewport;
                focus_point = req.focus_point;
                size = req.size;
                language = req.language;
              })
              0))
search_process-search_payload_example =
    search_process-search_payload codec codec-Laws client "t1" breaker request
      (job_with "sbrussels") 0 (closed 0) search_built
