-- ===== src/Server/Mux/Plain.antt =====
-- internal/server/server.go and internal/extension/extension.go: the complete mux, and what it does with
-- a request for an extension route.
use swayrider_api.Base.{
  String, ◌≡◌, refl, ◌∙◌, ◌≢◌, Option, none, some, List, [], ◌∷◌, ◌++◌, All, Option-cases, inl, inr,
}
use swayrider_api.Http.{Request, Handler}
use swayrider_api.Extension.{Route, Url}
use swayrider_api.Extension.Validation.{AreRoutes}
use swayrider_api.Extension.Routing.{match, body_limit, rate_class, class_of}
use swayrider_api.Extension.Registered.{clash, registered, register_on, handle_methods}
use swayrider_api.Server.{Entry, routes, serve}
use swayrider_api.Server.Run.{register_routes}
use swayrider_api.Server.Mux.{Mux, pattern, add, handle, dispatch, own_patterns, extension_patterns}
use swayrider_api.Server.Mux.Dispatched.{dispatch-found}
use swayrider_api.Server.Mux.Complete.{register_on_complete}

-- The mux reads a path as it stands: it is clean and has no escapes.
abbrev pub IsPlain : (String → Option String) → String → Type 0
IsPlain read_path p = read_path p ≡ some p

module _ {S : Type 0} (read_path : String → Option String) where
  handle-plain :
      (m p : String) (h : Handler S) (mux : Mux S)
      → IsPlain read_path p
      → handle read_path m p h mux ≡ add m p h mux
  unfolding handle
  handle-plain m p h mux e = rw (handle, e) refl

  register_routes-plain :
      (handlers : String → Handler S) (es : List Entry) (mux full : Mux S)
      → All (λ (e : Entry). IsPlain read_path e.path) es
      → register_routes add handlers es mux ≡ some full
      → register_routes (handle read_path) handlers es mux ≡ some full
  unfolding register_routes
  register_routes-plain handlers [] mux full h e = e
  register_routes-plain handlers (x ∷ es) mux full (here, rest) e =
      elim (Option-cases (add x.method x.path (serve handlers x) mux)) [
        | inl n ↦ let stopped : none ≡ some full = rw (register_routes, n) at e in cc
        | inr (next, k) ↦
            let later : register_routes add handlers es next ≡ some full =
              rw (register_routes, k) at e in
            let step = handle-plain x.method x.path (serve handlers x) mux here ∙ k in
            rw (register_routes, step) (register_routes-plain handlers es next full rest later)
      ]

  module _ (ext_handler : Route → Handler S) where
    handle_methods-plain :
        (route : Route) (ms : List String) (mux full : Mux S)
        → IsPlain read_path route.path
        → handle_methods add ext_handler route ms mux ≡ some full
        → handle_methods (handle read_path) ext_handler route ms mux ≡ some full
    unfolding handle_methods
    handle_methods-plain route [] mux full h e = e
    handle_methods-plain route (m ∷ ms) mux full h e =
        elim (Option-cases (add m route.path (ext_handler route) mux)) [
          | inl n ↦ let stopped : none ≡ some full = rw (handle_methods, n) at e in cc
          | inr (next, k) ↦
              let later : handle_methods add ext_handler route ms next ≡ some full =
                rw (handle_methods, k) at e in
              let step = handle-plain m route.path (ext_handler route) mux h ∙ k in
              rw (handle_methods, step) (handle_methods-plain route ms next full h later)
        ]

    register_on-plain :
        (ext : List Route) (mux full : Mux S)
        → All (λ (x : Route). IsPlain read_path x.path) ext
        → register_on add ext_handler ext mux ≡ registered full
        → register_on (handle read_path) ext_handler ext mux ≡ registered full
    unfolding register_on
    register_on-plain [] mux full h e = e
    register_on-plain (route ∷ ext) mux full (here, rest) e =
        elim (Option-cases (handle_methods add ext_handler route route.methods mux)) [
          | inl n ↦
              let stopped : clash route.name ≡ registered full = rw (register_on, n) at e in cc
          | inr (next, k) ↦
              let later : register_on add ext_handler ext next ≡ registered full =
                rw (register_on, k) at e in
              let step = handle_methods-plain route route.methods mux next here k in
              rw (register_on, step) (register_on-plain ext next full rest later)
        ]

  -- Where the mux reads the paths of the gateway's routes and of validated extension routes as they stand:
  -- all of them go onto an empty mux, none conflicts, and the mux has exactly their patterns. A request
  -- that is not HEAD and for which Match finds a route is dispatched to that route's handler, so that the
  -- route that serves it is the one whose body limit and rate class it is charged.
  pub dispatch-match :
      (url_parse : String → Option Url) (handlers : String → Handler S)
      (ext_handler : Route → Handler S) (ext : List Route)
      → AreRoutes url_parse [] [] ext
      → All (λ (e : Entry). IsPlain read_path e.path) routes
      → All (λ (x : Route). IsPlain read_path x.path) ext
      → (r : Request) (x : Route) → match ext r ≡ some x
      → r.method ≢ "HEAD"
      → let own = own_patterns handlers routes in
        let full = own ++ extension_patterns ext_handler ext in
        ((register_routes (handle read_path) handlers routes [] ≡ some own)
          × (register_on (handle read_path) ext_handler ext own ≡ registered full)
          × (dispatch full r ≡ some (pattern r.method x.path (ext_handler x)))
          × (body_limit ext r ≡ some x.max_body_bytes)
          × (rate_class ext r ≡ some (class_of x)))
  dispatch-match url_parse handlers ext_handler ext valid own_plain ext_plain r x found not_head =
      let (own_ok, ext_ok) = register_on_complete handlers ext_handler url_parse ext valid in
      let (served, limit, rate) =
        dispatch-found url_parse handlers ext_handler ext valid r x found not_head _ _ own_ok
          ext_ok in
      (
        register_routes-plain handlers routes [] _ own_plain own_ok,
        register_on-plain ext_handler ext _ _ ext_plain ext_ok,
        served,
        limit,
        rate,
      )
