-- ===== src/Examples/Starts.antt =====
-- The start of the gateway (cmd/swayrider-api/main.go, internal/server/server.go), and a logged request.
use swayrider_api.Base.{
  ℕ, ◌-◌, ◌/◌, ◌+◌, String, ◌≡◌, refl, ◌&&◌, ◌⊎◌, inl, inr, false, Option, none, some, List, [],
  ◌∷◌, ◌++◌, ◌==◌, any, if◌then◌else◌,
}
use swayrider_api.Http.{Request, Handler}
use swayrider_api.Config.{Config, load}
use swayrider_api.Extension.{Route}
use swayrider_api.Circuit.{Gobreaker, Settings}
use swayrider_api.Middleware.Logging.{
  Call, write_header, write, flush, is_informational, sent_status, logging, user_of,
}
use swayrider_api.Middleware.Logging.Recorded.{
  HasHeader, final, early, done, then_write, then_flush, kept, logging_lem,
}
use swayrider_api.Server.Run.{CorsOptions}
use swayrider_api.Main.{Address, Processes, start}
use swayrider_api.Main.Wired.{Outcome, start-Outcome}
use swayrider_api.Examples.Extensions.{parse, two_routes}
use swayrider_api.Examples.Gateway.{unset, mux, request}

-- A mux that refuses a method and a path that it has
abbrev Patterns : Type 0
Patterns = List (String × String)

abbrev handle : String → String → Handler ℕ → Patterns → Option Patterns
handle m p h ps =
    if any (λ (q : String × String). q.0 == m && q.1 == p) ps then none else some ((m, p) ∷ ps)

abbrev serve_mux : Patterns → Handler ℕ
serve_mux ps = mux

abbrev inside_cors : CorsOptions → Handler ℕ → Handler ℕ
inside_cors options h = h

abbrev unsorted : List String → List String
unsorted names = names

-- A breaker that is always closed
abbrev closed : Gobreaker Settings ℕ
closed = record { new_breaker = λ s. s; execute = λ g fn w. let r = fn w in (r.0, g, r.1) }

abbrev processes : Processes ℕ
processes = record {
  route = λ job w. (inr job.payload, w);
  reroute = λ job w. (inr job.payload, w);
  search = λ job w. (inr job.payload, w);
}

abbrev settings : Config
settings = record (load unset) { extension_routes_file = "routes.yaml" }

abbrev read_file : String → String ⊎ List Route
read_file name = if name == "routes.yaml" then inr two_routes else inl "no such file"

-- Every client can be made.
abbrev connect : String → Address → Option String
connect name address = none

start-Outcome_example :
    Outcome closed processes parse read_file connect settings
      (start closed processes parse read_file connect settings)
start-Outcome_example = start-Outcome closed processes parse read_file connect settings

-- A handler with an informational answer before its own, which takes 3 ms
abbrev hinting : Request → ℕ → List Call × ℕ
hinting r t = (write_header 103 ∷ write_header 404 ∷ write "gone" ∷ flush ∷ [], t + 3000000)

abbrev time : ℕ → ℕ
time t = t

hinting-header : HasHeader 404 (hinting request 5).0
unfolding is_informational
hinting-header = early 103 404 _ refl (final 404 _ refl (then_write "gone" _ (then_flush _ done)))

logging_lem_example :
    (sent_status (logging time hinting false request 5 []).0 ≡ 404)
    × (logging time hinting false request 5 [] ≡ (
      kept false (hinting request 5).0,
      (hinting request 5).1,
      []
          ++ record {
            method = "GET";
            path = "/health";
            status = 404;
            milliseconds = (time (hinting request 5).1 - time 5) / 1000000;
            ip = "";
            user = user_of none;
          }
            ∷ [],
    ))
logging_lem_example = logging_lem time hinting false request 5 [] 404 (inl hinting-header)
