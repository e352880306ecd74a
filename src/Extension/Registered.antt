-- ===== src/Extension/Registered.antt =====
-- internal/extension/extension.go: NewSet, Register on a mux, Describe and the transport. A mux is a
-- type M behind the parameter `handle`, for a pattern's method and path, which is none where
-- ServeMux.Handle panics; sort.Strings is
-- the parameter `sort`. A nil *Set is the empty list of routes.
use swayrider_api.Base.{
  join, ℕ, String, append, ◌⊎◌, inl, inr, Option, none, some, List, [], ◌∷◌, map, ℤ,
}
use swayrider_api.Extension.{Route, Url, Refusal, validate}

-- NewSet; inl is Validate's error.
unfoldable pub new_set : (String → Option Url) → List Route → Refusal ⊎ List Route
new_set url_parse routes = elim (validate url_parse routes) [
  | some refusal ↦ inl refusal
  | none ↦ inr routes
]

-- http.Transport with the fields that newTransport sets; durations are nanoseconds.
pub record Transport : Type 0 where
  pub dial_timeout : ℕ
  pub keep_alive : ℕ
  pub tls_handshake_timeout : ℕ
  pub response_header_timeout : ℤ
  pub idle_conn_timeout : ℕ
  pub max_idle_conns : ℕ
  pub max_idle_conns_per_host : ℕ

unfoldable pub new_transport : ℤ → Transport
new_transport timeout = record {
  dial_timeout = 5000000000;
  keep_alive = 30000000000;
  tls_handshake_timeout = 5000000000;
  response_header_timeout = timeout;
  idle_conn_timeout = 90000000000;
  max_idle_conns = 50;
  max_idle_conns_per_host = 10;
}

-- One line of Describe
unfoldable pub line_of : (List String → List String) → Route → String
line_of sort r = append r.name (
    append " " (
      append (join (sort r.methods) ",") (
        append " " (
          append r.path
            (append " -> " (append r.upstream (append " (auth=" (append r.auth ")"))))))))

unfoldable pub describe : (List String → List String) → List Route → List String
describe sort routes = map (line_of sort) routes

-- What Register returns
pub data Registration (M : Type 0) : Type 0 where
  registered : M → Registration M
  clash : String → Registration M

module _ {H M : Type 0} (handle : String → String → H → M → Option M) (handler : Route → H) where
  -- The loop over route.Methods: none where Handle panics
  unfoldable pub handle_methods : Route → List String → M → Option M
  handle_methods route [] mux = some mux
  handle_methods route (m ∷ ms) mux = elim (handle m route.path (handler route) mux) [
    | none ↦ none
    | some mux' ↦ handle_methods route ms mux'
  ]

  -- Register; a clash is the recovered panic, with the name of `current`.
  unfoldable pub register_on : List Route → M → Registration M
  register_on [] mux = registered mux
  register_on (route ∷ routes) mux = elim (handle_methods route route.methods mux) [
    | none ↦ clash route.name
    | some mux' ↦ register_on routes mux'
  ]
