-- ===== src/RateLimit/Limiter.antt =====
-- internal/ratelimit/limiter.go: the limiter and its degradation while Redis is down. Redis, the
-- clock and whatever else changes outside the limiter are a world `W` behind the parameter
-- `backend`; calls follow one another. The recursion from redisAllow through a successful probe
-- back to redisAllow takes fuel, `none` when it runs out.
pub mod Outage
pub mod Threads
pub mod Failures
use swayrider_api.Base.{
  ℕ, zero, suc, ◌+◌, ◌-◌, ◌/◌, String, Bool, true, false, Option, none, some, ◌==◌, if◌then◌else◌,
  ltb, leb, ℤ, pos, negsuc, within,
}
use swayrider_api.RateLimit.Memory.{Memory, Keys, new_memory}
use swayrider_api.RateLimit.Memory

pub record Backend (W : Type 0) : Type 0 where
  -- time.Now, in nanoseconds
  pub now : W → ℕ × W
  -- the pipeline for a key at a time (ms) and a window (ns): the count of ZCARD, none on an error
  pub exec : String → ℕ → ℕ → W → Option ℕ × W
  -- whether Ping answers
  pub ping : W → Bool × W

pub data Mode : Type 0 where
  memory deny : Mode

pub record Options : Type 0 where
  pub degrade_mode : String
  pub degrade_threshold : ℤ
  pub probe_interval : ℤ
  pub max_memory_keys : ℤ

-- `last_probe` is none for Go's zero time.
pub record Limiter : Type 0 where
  pub fallback : Memory
  pub mode : Mode
  pub threshold : ℕ
  pub probe_interval : ℕ
  pub consecutive_failures : ℕ
  pub degraded : Bool
  pub last_probe : Option ℕ

-- a value that must be positive, or its default
abbrev pub positive_or : ℤ → ℕ → ℕ
positive_or (pos zero) d = d
positive_or (pos (suc n)) d = suc n
positive_or (negsuc n) d = d

unfoldable pub new_limiter : Options → Limiter
new_limiter opts = record {
  fallback = new_memory opts.max_memory_keys;
  mode = if opts.degrade_mode == "deny" then deny else memory;
  threshold = positive_or opts.degrade_threshold 3;
  probe_interval = positive_or opts.probe_interval 15000000000;
  consecutive_failures = 0;
  degraded = false;
  last_probe = none;
}

-- The results of Allow: a decision with a nil error, or (false, ErrDegraded).
pub data Verdict : Type 0 where
  decided : Bool → Verdict
  err_degraded : Verdict

-- time.Since(lastProbe) < probeInterval
abbrev pub probed_since : Option ℕ → ℕ → ℕ → Bool
probed_since none t interval = false
probed_since (some last) t interval = ltb (t - last) interval

module _ (visit : Keys → Keys) {W : Type 0} (backend : Backend W) where
  unfoldable pub try_probe : Limiter → W → Bool × Limiter × W
  try_probe l w =
      let (t, w₁) = backend.now w in
      if probed_since l.last_probe t l.probe_interval
      then (false, l, w₁)
      else let (t₂, w₂) = backend.now w₁ in
        let probing : Limiter = record l { last_probe = some t₂ } in
        let (answered, w₃) = backend.ping w₂ in
        if answered
        then (true, record probing { degraded = false; consecutive_failures = 0 }, w₃)
        else (false, probing, w₃)

  -- The arguments of Allow.
  module _ (key : String) (limit : ℤ) (window : ℕ) where
    unfoldable pub fallback_allow : Limiter → W → Option (Verdict × Limiter × W)
    fallback_allow l w =
        let (t, w₁) = backend.now w in
        let (ok, m) = Memory.allow visit l.fallback key limit window (t / 1000000) in
        some (decided ok, record l { fallback = m }, w₁)

    abbrev pub deny_or_fallback : Mode → Limiter → W → Option (Verdict × Limiter × W)
    deny_or_fallback deny l w = some (err_degraded, l, w)
    deny_or_fallback memory l w = fallback_allow l w

    -- `retry` is the call of redisAllow after a probe that succeeded.
    unfoldable pub degraded_allow :
        (Limiter → W → Option (Verdict × Limiter × W))
        → Limiter
        → W
        → Option (Verdict × Limiter × W)
    degraded_allow retry l w =
        let (recovered, l₁, w₁) = try_probe l w in
        if recovered then retry l₁ w₁ else deny_or_fallback l₁.mode l₁ w₁

    unfoldable pub on_redis_error :
        (Limiter → W → Option (Verdict × Limiter × W))
        → Limiter
        → W
        → Option (Verdict × Limiter × W)
    on_redis_error retry l w =
        if leb l.threshold (l.consecutive_failures + 1)
        then degraded_allow retry (record l { degraded = true; consecutive_failures = 0 }) w
        else some (decided true, record l { consecutive_failures = l.consecutive_failures + 1 }, w)

    unfoldable pub redis_allow : ℕ → Limiter → W → Option (Verdict × Limiter × W)
    redis_allow zero l w = none
    redis_allow (suc fuel) l w =
        let (t, w₁) = backend.now w in
        let (count, w₂) = backend.exec key (t / 1000000) window w₁ in
        elim count [
          | some n ↦ some (decided (within n limit), l, w₂)
          | none ↦ on_redis_error (redis_allow fuel) l w₂
        ]

    unfoldable pub allow : ℕ → Limiter → W → Option (Verdict × Limiter × W)
    allow fuel l w =
        if l.degraded then degraded_allow (redis_allow fuel) l w else redis_allow fuel l w
