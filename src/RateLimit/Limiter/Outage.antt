-- ===== src/RateLimit/Limiter/Outage.antt =====
-- internal/ratelimit/limiter.go: the limiter's invariant, and its steps while Redis fails.
use swayrider_api.Base.{
  subst, ℕ, zero, suc, ◌+◌, ◌/◌, ◌≤◌, ◌<◌, String, ◌≡◌, refl, sym, ◌∙◌, inl, inr, Bool, true, false,
  Option, none, some, arith, if-true, if-false, leb, ℤ, pos, negsuc, within, Bool-cases,
  Option-cases,
}
use native.Mathlib.Decide.{dec_le}
use swayrider_api.RateLimit.Memory.{Keys}
use swayrider_api.RateLimit.Limiter.{
  Backend, Mode, memory, deny, Options, Limiter, new_limiter, positive_or, Verdict, decided,
  try_probe, fallback_allow, deny_or_fallback, degraded_allow, on_redis_error, redis_allow, allow,
}

-- A positive threshold that the counter has not reached; no failures are counted while degraded.
pub record IsValid (l : Limiter) : Type 0 where
  pub positive : 1 ≤ l.threshold
  pub below : l.consecutive_failures < l.threshold
  pub reset : l.degraded ≡ true → l.consecutive_failures ≡ 0

-- What a new limiter is, whatever the options.
pub new_limiter-IsValid : (opts : Options) → IsValid (new_limiter opts)
unfolding new_limiter
new_limiter-IsValid opts = cases opts.degrade_threshold
  where
    cases : (t : ℤ) → IsValid (record (new_limiter opts) { threshold = positive_or t 3 })
    cases (pos zero) = record { positive = omega arith; below = omega arith; reset = λ e. cc }
    cases (pos (suc n)) = record { positive = omega arith; below = omega arith; reset = λ e. cc }
    cases (negsuc n) = record { positive = omega arith; below = omega arith; reset = λ e. cc }

module _ (visit : Keys → Keys) {W : Type 0} (backend : Backend W) where
  -- A probe that fails leaves the state as it is but for its time; one that succeeds resets it.
  try_probe_lem :
      (l : Limiter) (w : W)
      → (l' : Limiter) × (w' : W) × (p : Bool) × (try_probe visit backend l w ≡ (p, l', w'))
        × (l'.threshold ≡ l.threshold)
        × (l'.mode ≡ l.mode)
        × (l'.fallback ≡ l.fallback)
        × (p ≡ true → (l'.degraded ≡ false) × (l'.consecutive_failures ≡ 0))
        × (p ≡ false
            → (l'.degraded ≡ l.degraded) × (l'.consecutive_failures ≡ l.consecutive_failures))
  unfolding try_probe
  try_probe_lem l w =
      let r = try_probe visit backend l w in
      (
        r.1,
        r.2,
        r.0,
        refl,
        ground arith,
        ground arith,
        ground arith,
        λ e. (ground (arith, e), ground (arith, e)),
        λ e. (ground (arith, e), ground (arith, e)),
      )

  -- What holds of the limiter after a call, if it returned.
  abbrev After : (Limiter → Type 0) → Option (Verdict × Limiter × W) → Type 0
  After P none = Unit
  After P (some (v, l, w)) = P l

  module _ (key : String) (limit : ℤ) (window : ℕ) where
    fallback_allow-IsValid :
        (l : Limiter) (w : W)
        → IsValid l
        → After IsValid (fallback_allow visit backend key limit window l w)
    unfolding fallback_allow
    fallback_allow-IsValid l w v = record {
      positive = v.positive;
      below = v.below;
      reset = v.reset;
    }

    deny_or_fallback-IsValid :
        (mode : Mode) (l : Limiter) (w : W)
        → IsValid l
        → After IsValid (deny_or_fallback visit backend key limit window mode l w)
    deny_or_fallback-IsValid deny l w v = v
    deny_or_fallback-IsValid memory l w v = fallback_allow-IsValid l w v

    module _ (retry : Limiter → W → Option (Verdict × Limiter × W))
        (keep : (l : Limiter) (w : W)
          → IsValid l
          → l.degraded ≡ false
          → After IsValid (retry l w)) where
      degraded_allow-IsValid :
          (l : Limiter) (w : W)
          → IsValid l
          → After IsValid (degraded_allow visit backend key limit window retry l w)
      unfolding degraded_allow
      degraded_allow-IsValid l w v =
          let (l', w', p, e, t, m, f, yes_probe, no_probe) = try_probe_lem l w in
          elim (Bool-cases p) [
            | inl hit ↦
                rw (e, hit, degraded_allow)
                  (keep l' w'
                    (record {
                      positive = omega (arith, t, v.positive);
                      below = omega (arith, t, v.positive, (yes_probe hit).1);
                      reset = λ d. (yes_probe hit).1;
                    })
                    (yes_probe hit).0)
            | inr miss ↦
                rw (e, miss, degraded_allow)
                  (deny_or_fallback-IsValid l'.mode l' w' (record {
                    positive = omega (arith, t, v.positive);
                    below = omega (arith, t, v.below, (no_probe miss).1);
                    reset = λ d. (no_probe miss).1 ∙ v.reset (sym (no_probe miss).0 ∙ d);
                  }))
          ]

      on_redis_error-IsValid :
          (l : Limiter) (w : W)
          → IsValid l
          → l.degraded ≡ false
          → After IsValid (on_redis_error visit backend key limit window retry l w)
      unfolding on_redis_error
      on_redis_error-IsValid l w v healthy =
          elim (Bool-cases (leb l.threshold (l.consecutive_failures + 1))) [
            | inl full ↦
                rw (full, on_redis_error)
                  (degraded_allow-IsValid (record l { degraded = true; consecutive_failures = 0 }) w
                    (record { positive = v.positive; below = v.positive; reset = λ e. refl }))
            | inr more ↦
                rw (more, on_redis_error)
                  (record {
                    positive = v.positive;
                    below = ground (arith, more);
                    reset = λ e. absurd (cc (e, healthy));
                  })
          ]

    redis_allow-IsValid :
        (fuel : ℕ) (l : Limiter) (w : W)
        → IsValid l
        → l.degraded ≡ false
        → After IsValid (redis_allow visit backend key limit window fuel l w)
    unfolding redis_allow
    redis_allow-IsValid zero l w v healthy = tt
    redis_allow-IsValid (suc fuel) l w v healthy =
        let (t, w₁) = backend.now w in
        let (count, w₂) = backend.exec key (t / 1000000) window w₁ in
        elim (Option-cases count) [
          | inl failed ↦
              rw (failed, redis_allow)
                (on_redis_error-IsValid (redis_allow visit backend key limit window fuel)
                  (redis_allow-IsValid fuel) l w₂ v healthy)
          | inr (n, e) ↦ rw (e, redis_allow) v
        ]

    deny_or_fallback-returns :
        (mode : Mode) (l : Limiter) (w : W)
        → (r : Verdict × Limiter × W) × (deny_or_fallback visit backend key limit window mode l w
            ≡ some r)
    unfolding fallback_allow
    deny_or_fallback-returns deny l w = (_, refl)
    deny_or_fallback-returns memory l w = (_, refl)

    -- The branches of the calls, as equations.
    module _ (fuel : ℕ) (l : Limiter) (w : W) where
      pub allow_degraded :
          l.degraded ≡ true
          → allow visit backend key limit window fuel l w
            ≡ degraded_allow visit backend key limit window
                (redis_allow visit backend key limit window fuel)
                l
                w
      unfolding allow
      allow_degraded d = if-true l.degraded _ _ d

      pub allow_healthy :
          l.degraded ≡ false
          → allow visit backend key limit window fuel l w
            ≡ redis_allow visit backend key limit window fuel l w
      unfolding allow
      allow_healthy d = if-false l.degraded _ _ d

      -- the world after the pipeline
      abbrev pub after_exec : W
      after_exec = let (t, w₁) = backend.now w in (backend.exec key (t / 1000000) window w₁).1

      abbrev pub exec_count : Option ℕ
      exec_count = let (t, w₁) = backend.now w in (backend.exec key (t / 1000000) window w₁).0

      pub redis_error :
          exec_count ≡ none
          → redis_allow visit backend key limit window (suc fuel) l w
            ≡ on_redis_error visit backend key limit window
                (redis_allow visit backend key limit window fuel)
                l
                after_exec
      unfolding redis_allow
      redis_error e = rw (e, redis_allow)

      pub redis_answer :
          (n : ℕ)
          → exec_count ≡ some n
          → redis_allow visit backend key limit window (suc fuel) l w
            ≡ some (decided (within n limit), l, after_exec)
      unfolding redis_allow
      redis_answer n e = rw (e, redis_allow)

    module _ (retry : Limiter → W → Option (Verdict × Limiter × W)) (l : Limiter) (w : W) where
      pub error_below :
          l.consecutive_failures + 1 < l.threshold
          → on_redis_error visit backend key limit window retry l w
            ≡ some (decided true, record l { consecutive_failures = l.consecutive_failures + 1 }, w)
      unfolding on_redis_error
      error_below h = if-false (leb l.threshold (l.consecutive_failures + 1)) _ _ (ground arith)

      pub error_reached :
          l.threshold ≤ l.consecutive_failures + 1
          → on_redis_error visit backend key limit window retry l w
            ≡ degraded_allow visit backend key limit window retry
                (record l { degraded = true; consecutive_failures = 0 })
                w
      unfolding on_redis_error
      error_reached h = if-true (leb l.threshold (l.consecutive_failures + 1)) _ _ (ground arith)

    -- Below the threshold an error of Redis lets the request through.
    redis_allow-returns :
        (fuel : ℕ) (l : Limiter) (w : W)
        → l.consecutive_failures + 1 < l.threshold
        → (r : Verdict × Limiter × W) × (redis_allow visit backend key limit window (suc fuel) l w
            ≡ some r)
    redis_allow-returns fuel l w below = elim (Option-cases (exec_count fuel l w)) [
      | inl failed ↦ (_, redis_error fuel l w failed ∙ error_below _ l _ below)
      | inr (n, e) ↦ (_, redis_answer fuel l w n e)
    ]

    degraded_allow-returns :
        (fuel : ℕ) (l : Limiter) (w : W)
        → 2 ≤ l.threshold
        → (r : Verdict × Limiter × W) × (degraded_allow visit backend key limit window
              (redis_allow visit backend key limit window (suc fuel))
              l
              w
            ≡ some r)
    unfolding degraded_allow
    degraded_allow-returns fuel l w two =
        let (l', w', p, e, t, m, f, hit_lem, miss_lem) = try_probe_lem l w in
        elim (Bool-cases p) [
          | inl hit ↦
              let (r, done) = redis_allow-returns fuel l' w' (omega (arith, t, (hit_lem hit).1)) in
              (r, rw (e, hit, degraded_allow) done)
          | inr miss ↦
              let (r, done) = deny_or_fallback-returns l'.mode l' w' in
              (r, rw (e, miss, degraded_allow) done)
        ]

    allow-returns :
        (l : Limiter) (w : W)
        → 2 ≤ l.threshold
        → (r : Verdict × Limiter × W) × (allow visit backend key limit window 2 l w ≡ some r)
    allow-returns l w two = elim (Bool-cases l.degraded) [
      | inl d ↦
          let (r, done) = degraded_allow-returns 1 l w two in (r, allow_degraded 2 l w d ∙ done)
      | inr healthy ↦ elim (Option-cases (exec_count 1 l w)) [
        | inr (n, e) ↦ (_, allow_healthy 2 l w healthy ∙ redis_answer 1 l w n e)
        | inl failed ↦
            let start = allow_healthy 2 l w healthy ∙ redis_error 1 l w failed in
            elim (dec_le l.threshold (l.consecutive_failures + 1)) [
              | yes full ↦
                  let (r, done) =
                    degraded_allow-returns 0
                      (record l { degraded = true; consecutive_failures = 0 }) (after_exec 1 l w)
                      two in
                  (r, start ∙ (error_reached _ l _ full ∙ done))
              | no more ↦ (_, start ∙ error_below _ l _ (omega arith))
            ]
      ]
    ]

    -- The invariant after a whole call.
    allow-IsValid :
        (fuel : ℕ) (l : Limiter) (w : W)
        → IsValid l
        → After IsValid (allow visit backend key limit window fuel l w)
    allow-IsValid fuel l w v = elim (Bool-cases l.degraded) [
      | inl d ↦ rw (allow_degraded fuel l w d) (
          degraded_allow-IsValid (redis_allow visit backend key limit window fuel)
            (redis_allow-IsValid fuel) l w v)
      | inr h ↦ rw (allow_healthy fuel l w h) (redis_allow-IsValid fuel l w v h)
    ]

-- Allow returns, whatever Redis and the clock do, and keeps the limiter's invariant, if the
-- threshold is at least two: it reaches Redis at most twice.
pub allow-returns_IsValid :
    (visit : Keys → Keys) {W : Type 0} (backend : Backend W) (key : String) (limit : ℤ) (window : ℕ)
    (l : Limiter) (w : W)
    → IsValid l
    → 2 ≤ l.threshold
    → (v : Verdict) × (l' : Limiter) × (w' : W) × (allow visit backend key limit window 2 l w
        ≡ some (v, l', w'))
      × IsValid l'
allow-returns_IsValid visit backend key limit window l w valid two =
    let (r, e) = allow-returns visit backend key limit window l w two in
    (
      r.0,
      r.1,
      r.2,
      e,
      subst (After visit backend IsValid) e
          (allow-IsValid visit backend key limit window 2 l w valid),
    )
