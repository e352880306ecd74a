-- ===== src/ServiceToken.antt =====
-- internal/servicetoken/manager.go: the gateway's own token. Times and durations are nanoseconds, and
-- Go's zero time is none. The lock is left out: refresh runs in one goroutine, and readers only copy
-- a field.
pub mod Loop
pub mod Episode
use swayrider_api.Base.{
  ℕ, suc, ◌+◌, ◌-◌, ◌≤◌, String, Bool, true, false, not, ◌||◌, Option, none, some, if◌then◌else◌,
  ltb, leb,
}

pub record Manager : Type 0 where
  pub token : String
  pub expiry : Option ℕ
  pub stale_logged : Bool
  pub last_stale_log : Option ℕ
  pub retry_delay : ℕ

abbrev pub second : ℕ
second = 1000000000

abbrev pub three_minutes : ℕ
three_minutes = 180000000000

abbrev pub hour : ℕ
hour = 3600000000000

unfoldable pub new_manager : Manager
new_manager = record {
  token = "";
  expiry = none;
  stale_logged = false;
  last_stale_log = none;
  retry_delay = 30000000000;
}

-- What the select of refresh takes: the fetcher's token with its end, its error or panic, or the
-- timer. A result that comes after the timer is dropped.
pub data Fetch : Type 0 where
  fetched : String → Option ℕ → Fetch
  fetch_failed : Fetch
  timed_out : Fetch

-- time.Now().After(m.expiry)
unfoldable pub is_after : ℕ → Option ℕ → Bool
is_after now none = true
is_after now (some t) = ltb t now

-- now.Sub(m.lastStaleLog) >= time.Hour; Sub saturates for the zero time.
unfoldable pub hour_since : ℕ → Option ℕ → Bool
hour_since now none = true
hour_since now (some t) = leb hour (now - t)

-- noteStale, whose two calls of time.Now give `checked` and `now`; the flag tells whether it logged.
unfoldable pub note_stale : ℕ → ℕ → Manager → Manager × Bool
note_stale checked now m =
    if not (is_after checked m.expiry)
    then (m, false)
    else if not m.stale_logged || hour_since now m.last_stale_log
    then (record m { stale_logged = true; last_stale_log = some now }, true)
    else (m, false)

unfoldable pub refresh : Fetch → ℕ → ℕ → Manager → Manager × Bool
refresh (fetched token valid_until) checked now m =
    (record m { token = token; expiry = valid_until; stale_logged = false }, false)
refresh fetch_failed checked now m = note_stale checked now m
refresh timed_out checked now m = note_stale checked now m

-- How long run waits at the time `now` before the next refresh.
unfoldable pub ttl : ℕ → Manager → ℕ
ttl now m = elim m.expiry [
  | none ↦ m.retry_delay
  | some expiry ↦
      if ltb (now + three_minutes) expiry then expiry - now - three_minutes else m.retry_delay
]
