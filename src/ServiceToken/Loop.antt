-- ===== src/ServiceToken/Loop.antt =====
-- internal/servicetoken/manager.go: the loop of run as a step relation. Each round waits and
-- refreshes; the fetcher and the clock choose freely, but time does not run backwards.
use swayrider_api.Base.{ℕ, ◌+◌, ◌≤◌, String, Bool, List, [], ◌∷◌, if◌then◌else◌}
use swayrider_api.ServiceToken.{
  Manager, Fetch, fetched, fetch_failed, timed_out, refresh, ttl, new_manager,
}

-- The manager, the time, the token that the fetcher answered last, and the times of the stale-token
-- errors that were logged since, the latest first.
pub record World : Type 0 where
  pub manager : Manager
  pub now : ℕ
  pub issued : String
  pub logs : List ℕ

abbrev pub issued_by : Fetch → String → String
issued_by (fetched token valid_until) old = token
issued_by fetch_failed old = old
issued_by timed_out old = old

abbrev pub logs_after : Fetch → Bool → ℕ → List ℕ → List ℕ
logs_after (fetched token valid_until) logged now logs = []
logs_after fetch_failed logged now logs = if logged then now ∷ logs else logs
logs_after timed_out logged now logs = if logged then now ∷ logs else logs

-- The world after a refresh that ends with `f`.
abbrev pub refreshed : Fetch → ℕ → ℕ → World → World
refreshed f checked now w =
    let r = refresh f checked now w.manager in
    record {
      manager = r.0;
      now = now;
      issued = issued_by f w.issued;
      logs = logs_after f r.1 now w.logs;
    }

pub data Step : World → World → Type 0 where
  round :
      (w : World) (f : Fetch) (checked now : ℕ)
      → w.now + ttl w.now w.manager ≤ checked
      → checked ≤ now
      → Step w (refreshed f checked now w)

abbrev pub start : ℕ → World
start now = record { manager = new_manager; now = now; issued = ""; logs = [] }

-- The worlds that Start (which refreshes at once) and run lead to.
pub data Reach (t : ℕ) : World → Type 0 where
  started :
      (f : Fetch) (checked now : ℕ)
      → t ≤ checked
      → checked ≤ now
      → Reach t (refreshed f checked now (start t))
  later : {v w : World} → Reach t v → Step v w → Reach t w
