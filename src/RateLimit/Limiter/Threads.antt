-- ===== src/RateLimit/Limiter/Threads.antt =====
-- internal/ratelimit/limiter.go: the calls of Allow at work together. The limiter is shared; each
-- section under its mutex is one step, and what a call does between two sections is its place. The
-- clock does not run back. `probes`, `opens`, `trips` and `recoveries` count what happened.
pub mod Paced
pub mod Bounds
use swayrider_api.Base.{
  ℕ, zero, suc, ◌+◌, ◌/◌, ◌≤◌, String, ◌≡◌, Bool, true, false, Option, none, some, List, [], ◌∷◌,
  ◌++◌, if◌then◌else◌, leb, ℤ, within,
}
use swayrider_api.RateLimit.Memory.{Keys}
use swayrider_api.RateLimit.Memory
use swayrider_api.RateLimit.Limiter.{
  Mode, memory, deny, Limiter, Verdict, decided, err_degraded, probed_since,
}

-- The arguments of Allow
pub record Arguments : Type 0 where
  pub key : String
  pub limit : ℤ
  pub window : ℕ

-- Where a call is: at its start, at the pipeline, in onRedisError, in tryProbe, at its ping, after a
-- ping that was answered, in degradedAllow after tryProbe has returned false, and at its end.
pub data Place : Type 0 where
  asked : Place
  at_redis : Place
  failed : Place
  probing : Place
  pinging : Place
  recovering : Place
  refusing : Place
  answered : Verdict → Place

pub record Shared : Type 0 where
  pub limiter : Limiter
  pub clock : ℕ
  pub probes : ℕ
  pub opens : ℕ
  pub trips : ℕ
  pub recoveries : ℕ

-- onRedisError's section: the threshold is reached, or the request is let through.
abbrev pub on_failure : Bool → Shared → Shared × Place
on_failure true s = (
  record s {
    limiter = record s.limiter { degraded = true; consecutive_failures = 0 };
    trips = suc s.trips;
  },
  probing,
)
on_failure false s = (
  record s {
    limiter = record s.limiter { consecutive_failures = suc s.limiter.consecutive_failures };
    opens = suc s.opens;
  },
  answered (decided true),
)

abbrev pub failure : Shared → Shared × Place
failure s = on_failure (leb s.limiter.threshold (suc s.limiter.consecutive_failures)) s

-- tryProbe's first section, where the clock is at `t` when the time of the probe is stored
abbrev pub on_probe : Bool → ℕ → Shared → Shared × Place
on_probe true t s = (s, refusing)
on_probe false t s = (
  record s { limiter = record s.limiter { last_probe = some t }; clock = t; probes = suc s.probes },
  pinging,
)

abbrev pub try_time : ℕ → Shared → Shared × Place
try_time t s = on_probe (probed_since s.limiter.last_probe s.clock s.limiter.probe_interval) t s

-- tryProbe's second section
abbrev pub on_pong : Shared → Shared
on_pong s = record s {
  limiter = record s.limiter { degraded = false; consecutive_failures = 0 };
  recoveries = suc s.recoveries;
}

-- degradedAllow after tryProbe has returned false
abbrev pub on_refusal : (Keys → Keys) → Arguments → Mode → Shared → Shared × Place
on_refusal visit a deny s = (s, answered err_degraded)
on_refusal visit a memory s =
    let (ok, m) =
      Memory.allow visit s.limiter.fallback a.key a.limit a.window (s.clock / 1000000) in
    (record s { limiter = record s.limiter { fallback = m } }, answered (decided ok))

-- One step of a call.
pub data Move (visit : Keys → Keys) (a : Arguments) : Shared → Place → Shared → Place → Type 0 where
  ask : (s : Shared) → Move visit a s asked s (if s.limiter.degraded then probing else at_redis)
  count : (s : Shared) (n : ℕ) → Move visit a s at_redis s (answered (decided (within n a.limit)))
  fail : (s : Shared) → Move visit a s at_redis s failed
  record_failure : (s : Shared) → Move visit a s failed (failure s).0 (failure s).1
  probe :
      (s : Shared) (t : ℕ) → s.clock ≤ t → Move visit a s probing (try_time t s).0 (try_time t s).1
  pong : (s : Shared) → Move visit a s pinging s recovering
  no_pong : (s : Shared) → Move visit a s pinging s refusing
  recover : (s : Shared) → Move visit a s recovering (on_pong s) at_redis
  refuse :
      (s : Shared)
      → Move visit a s refusing
          (on_refusal visit a s.limiter.mode s).0
          (on_refusal visit a s.limiter.mode s).1

-- The calls with their arguments and places: one of them moves, a new one comes, or time passes.
pub data Step (visit : Keys → Keys)
    : Shared → List (Arguments × Place) → Shared → List (Arguments × Place) → Type 0 where
  move :
      (before after : List (Arguments × Place)) (a : Arguments) (s s' : Shared) (p p' : Place)
      → Move visit a s p s' p'
      → Step visit s (before ++ (a, p) ∷ after) s' (before ++ (a, p') ∷ after)
  arrive :
      (s : Shared) (calls : List (Arguments × Place)) (a : Arguments)
      → Step visit s calls s ((a, asked) ∷ calls)
  pass :
      (s : Shared) (calls : List (Arguments × Place)) (t : ℕ)
      → s.clock ≤ t
      → Step visit s calls (record s { clock = t }) calls

abbrev pub fresh : Limiter → ℕ → Shared
fresh l t = record { limiter = l; clock = t; probes = 0; opens = 0; trips = 0; recoveries = 0 }

pub data Reach (visit : Keys → Keys) (l : Limiter) (t : ℕ)
    : Shared → List (Arguments × Place) → Type 0 where
  begun : Reach visit l t (fresh l t) []
  later :
      (s s' : Shared) (calls calls' : List (Arguments × Place))
      → Reach visit l t s calls
      → Step visit s calls s' calls'
      → Reach visit l t s' calls'
