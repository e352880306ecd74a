-- ===== src/Server/Mux.antt =====
-- The mux of internal/server/server.go, with what package net/http documents of it for patterns of a
-- method and a path without wildcards: a path that ends in a slash takes all below it, GET
-- takes HEAD, a pattern that conflicts with one on the mux panics, and the most specific pattern that
-- takes a request serves it. Where none does, the mux answers by itself. How it reads the path of a
-- pattern (it panics on one that is not clean, and undoes escapes) is the parameter `read_path`.
pub mod Narrowest
pub mod Complete
pub mod Plain
pub mod Apart
pub mod Contents
pub mod Dispatched
use swayrider_api.Base.{
  String, Bool, true, false, not, ◌&&◌, ◌||◌, Option, none, some, List, [], ◌∷◌, ◌++◌, ◌==◌,
  if◌then◌else◌, any, map,
}
use swayrider_api.Http.{Request, Handler}
use swayrider_api.Extension.{Route}
use swayrider_api.Extension.Routing.{matches_path}
use swayrider_api.Server.{Entry, serve}

pub record Pattern (S : Type 0) : Type 0 where
  pub method : String
  pub path : String
  pub handler : Handler S

abbrev pub pattern : {S : Type 0} → String → String → Handler S → Pattern S
pattern method path handler = record { method = method; path = path; handler = handler }

-- The patterns, in the order of their registration
abbrev pub Mux : Type 0 → Type 0
Mux S = List (Pattern S)

-- Whether the method `m` of a pattern takes the method `n`
unfoldable pub takes_method : String → String → Bool
takes_method m n = m == "" || m == n || (m == "GET" && n == "HEAD")

module _ {S : Type 0} where
  unfoldable pub takes : Pattern S → Request → Bool
  takes p r = takes_method p.method r.method && matches_path p.path r.path

  -- Whether `q` takes every request that `p` takes
  unfoldable pub is_wider : Pattern S → Pattern S → Bool
  is_wider q p = takes_method q.method p.method && matches_path q.path p.path

  -- Whether some request is taken by both, and neither is the more specific one
  unfoldable pub conflicts : Pattern S → Pattern S → Bool
  conflicts p q =
      (takes_method p.method q.method || takes_method q.method p.method)
      && (matches_path p.path q.path || matches_path q.path p.path)
      && (if is_wider p q then is_wider q p else not (is_wider q p))

  -- A pattern with its path as it is read
  unfoldable pub add : String → String → Handler S → Mux S → Option (Mux S)
  add method path handler mux =
      if any (conflicts (pattern method path handler)) mux
      then none
      else some (mux ++ pattern method path handler ∷ [])

  -- ServeMux.Handle
  unfoldable pub handle :
      (String → Option String) → String → String → Handler S → Mux S → Option (Mux S)
  handle read_path method path handler mux = elim (read_path path) [
    | none ↦ none
    | some p ↦ add method p handler mux
  ]

  -- The more specific one of what was found and a pattern that takes the request
  unfoldable pub narrower : Option (Pattern S) → Pattern S → Option (Pattern S)
  narrower none p = some p
  narrower (some q) p = if is_wider q p then some p else some q

  unfoldable pub dispatch_from : Option (Pattern S) → Mux S → Request → Option (Pattern S)
  dispatch_from best [] r = best
  dispatch_from best (p ∷ mux) r = dispatch_from (if takes p r then narrower best p else best) mux r

  unfoldable pub dispatch : Mux S → Request → Option (Pattern S)
  dispatch mux r = dispatch_from none mux r

  -- ServeHTTP; `other` answers 404, 405 or a redirect.
  unfoldable pub serve_mux : Handler S → Mux S → Handler S
  serve_mux other mux r s = elim (dispatch mux r) [ none ↦ other r s | some p ↦ p.handler r s ]

  -- The patterns of the gateway's own routes, and of extension routes
  abbrev pub own_patterns : (String → Handler S) → List Entry → Mux S
  own_patterns handlers es = map (λ (e : Entry). pattern e.method e.path (serve handlers e)) es

  abbrev pub method_patterns : Handler S → Route → List String → Mux S
  method_patterns handler route ms = map (λ m. pattern m route.path handler) ms

  abbrev pub extension_patterns : (Route → Handler S) → List Route → Mux S
  extension_patterns ext_handler [] = []
  extension_patterns ext_handler (route ∷ routes) =
      method_patterns (ext_handler route) route route.methods
      ++ extension_patterns ext_handler routes
