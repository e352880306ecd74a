-- ===== src/Middleware/Logging.antt =====
-- internal/middleware/logging.go, and the same statusRecorder of internal/extension/extension.go: the
-- log line of a request. A handler is the calls that it makes on its http.ResponseWriter, in order,
-- and what it does to the state, in which `now` is the clock in nanoseconds. A handler that panics
-- logs nothing, and is not modelled.
pub mod Recorded
use swayrider_api.Base.{
  not, ◌&&◌, eqb, leb, ℕ, ◌-◌, ◌/◌, ◌≤◌, ◌<◌, String, ◌≡◌, refl, ◌∙◌, ap, Bool, true, false, Option,
  none, some, List, [], ◌∷◌, ◌++◌, if◌then◌else◌, ltb, arith,
}
use swayrider_api.Http.{Request, Claims}

-- A call on a ResponseWriter
pub data Call : Type 0 where
  write_header : ℕ → Call
  write : String → Call
  flush : Call

-- The recorder, with the calls that it has passed on; `flushes` tells whether the writer is a Flusher.
pub record StatusRecorder : Type 0 where
  pub flushes : Bool
  pub passed : List Call
  pub status : ℕ

unfoldable pub recorder : Bool → StatusRecorder
recorder flushes = record { flushes = flushes; passed = []; status = 200 }

-- Write is the embedded writer's.
unfoldable pub on_call : Call → StatusRecorder → StatusRecorder
on_call (write_header status) r = record r {
  passed = r.passed ++ write_header status ∷ [];
  status = status;
}
on_call (write text) r = record r { passed = r.passed ++ write text ∷ [] }
on_call flush r = record r { passed = if r.flushes then r.passed ++ flush ∷ [] else r.passed }

unfoldable pub on_calls : List Call → StatusRecorder → StatusRecorder
on_calls [] r = r
on_calls (c ∷ cs) r = on_calls cs (on_call c r)

unfoldable pub is_informational : ℕ → Bool
is_informational status = leb 100 status && ltb status 200 && not (eqb status 101)

-- The status that package net/http sends for the calls: that of the first WriteHeader that is not
-- informational (1xx, but for 101), and 200 where Write or Flush come first or nothing does.
unfoldable pub sent_status : List Call → ℕ
sent_status [] = 200
sent_status (write text ∷ cs) = 200
sent_status (flush ∷ cs) = 200
sent_status (write_header status ∷ cs) =
    let rest = sent_status cs in if is_informational status then rest else status

-- The arguments of the log line's format
pub record LogLine : Type 0 where
  pub method : String
  pub path : String
  pub status : ℕ
  pub milliseconds : ℕ
  pub ip : String
  pub user : String

unfoldable pub user_of : Option Claims → String
user_of none = "-"
user_of (some claims) = claims.subject

module _ {S : Type 0} (now : S → ℕ) where
  -- Logging: what reaches the client's writer, the state, and the log.
  unfoldable pub logging :
      (Request → S → List Call × S)
      → Bool
      → Request
      → S
      → List LogLine
      → List Call × S × List LogLine
  logging next flushes r s log =
      let answer = next r s in
      let rec = on_calls answer.0 (recorder flushes) in
      (
        rec.passed,
        answer.1,
        log
            ++ record {
              method = r.method;
              path = r.path;
              status = rec.status;
              milliseconds = (now answer.1 - now s) / 1000000;
              ip = r.ctx.orig_ip;
              user = user_of r.ctx.claims;
            }
              ∷ [],
      )
