-- ===== src/Extension/Upstream.antt =====
-- internal/extension/extension.go: the handler of a route, and what it sends upstream. The reverse
-- proxy, the circuit breaker and strings.ToLower are parameters.
pub mod Guarded
use swayrider_api.Base.{
  ℕ, String, append, Bool, true, false, not, ◌&&◌, ◌||◌, Option, none, some, List, [], ◌∷◌, ◌==◌,
  if◌then◌else◌, leb, has_prefix,
}
use swayrider_api.Http.{Headers, Request, Response, Handler, header_del, header_set, http_error}
use swayrider_api.Middleware.Access.{require_verified_user, require_admin}
use swayrider_api.Extension.{Route, auth_user, auth_admin}

-- The errors that the proxy's ErrorHandler tells apart.
pub data ProxyError : Type 0 where
  too_big : ProxyError
  deadline_exceeded : ProxyError
  other_error : ProxyError

unfoldable pub error_answer : ProxyError → Response
error_answer too_big = http_error "request body too large" 413 []
error_answer deadline_exceeded = http_error "upstream timed out" 504 []
error_answer other_error = http_error "upstream unavailable" 502 []

-- What the round trip to the upstream ends in.
pub data Trip : Type 0 where
  answered : Response → Trip
  failed : ProxyError → Trip

abbrev pub trip_answer : Trip → Response
trip_answer (answered response) = response
trip_answer (failed err) = error_answer err

module _ (to_lower : String → String) where
  -- The headers that look like a claim about the caller, by the name in lower case.
  abbrev pub is_identity : String → Bool
  is_identity lower =
      has_prefix lower "x-swayrider-"
      || has_prefix lower "x-forwarded-user"
      || has_prefix lower "x-auth-"
      || lower == "x-user-id"
      || lower == "x-remote-user"

  unfoldable pub drop_identity : Headers → Headers
  drop_identity [] = []
  drop_identity ((name, v) ∷ headers) =
      let rest = drop_identity headers in
      if is_identity (to_lower name) then rest else (name, v) ∷ rest

  -- The Authorization header for the token of the context.
  abbrev pub forward_token : Option String → Headers → Headers
  forward_token none out = out
  forward_token (some token) out =
      if not (token == "") then header_set out "Authorization" (append "Bearer " token) else out

  -- prepareUpstreamRequest: the headers of `out`; `jwt` is JwtKey's value in the context of `in`.
  unfoldable pub prepare_upstream_request : Headers → Option String → Bool → Headers
  prepare_upstream_request out jwt forward_authorization =
      let dropped = drop_identity (header_del (header_del out "Cookie") "Authorization") in
      if forward_authorization then forward_token jwt dropped else dropped

  module _ {S : Type 0} (round_trip : Request → S → Trip × S) where
    -- proxy.ServeHTTP of the rewritten request
    unfoldable pub serve_proxy : Route → Handler S
    serve_proxy route r s =
        let r2 = record r {
          headers = prepare_upstream_request r.headers r.ctx.jwt route.forward_authorization;
        } in
        let t = round_trip r2 s in (trip_answer t.0, t.1)

    -- What the breaker executes: the answer, and whether its status is an error for the breaker.
    unfoldable pub recorded : Route → Request → S → (Response × Bool) × S
    recorded route r s = let a = serve_proxy route r s in ((a.0, leb 502 a.0.status), a.1)

    -- Breaker.Execute: none where the breaker refuses the call, or else what the call did.
    unfoldable pub forward :
        Option (String → (S → (Response × Bool) × S) → S → Option Response × S) → Route → Handler S
    forward none route r s = serve_proxy route r s
    forward (some execute) route r s =
        let e = execute route.name (recorded route r) s in
        (
          elim e.0 [ none ↦ http_error "service unavailable" 503 [] | some response ↦ response ],
          e.1,
        )

    -- Set.handler
    unfoldable pub handler :
        Option (String → (S → (Response × Bool) × S) → S → Option Response × S) → Route → Handler S
    handler breakers route =
        if route.auth == auth_user
        then require_verified_user (forward breakers route)
        else if route.auth == auth_admin
        then require_admin (forward breakers route)
        else forward breakers route
