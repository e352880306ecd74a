-- ===== src/RateLimit/Limiter/Threads/Bounds.antt =====
-- internal/ratelimit/limiter.go: what calls of Allow at work together can do to the limiter.
use swayrider_api.Base.{
  ℕ, zero, suc, ◌+◌, ◌-◌, ◌*◌, ◌≤◌, ◌<◌, ◌≡◌, refl, sym, subst, Bool, true, false, List, ◌++◌,
  if◌then◌else◌, arith,
}
use swayrider_api.RateLimit.Memory.{Keys}
use swayrider_api.RateLimit.Limiter.{
  Mode, memory, deny, Limiter, Options, new_limiter, probed_since,
}
use swayrider_api.RateLimit.Limiter.Outage.{new_limiter-IsValid}
use swayrider_api.RateLimit.Limiter.Threads.{
  Arguments, Place, at_redis, probing, Shared, on_failure, on_probe, on_pong, on_refusal, failure,
  try_time, Move, ask, count, fail, record_failure, probe, pong, no_pong, recover, refuse, Step,
  move, arrive, pass, Reach, begun, later,
}
use swayrider_api.RateLimit.Limiter.Threads.Paced.{
  with_due, all_due, all_due-++, Paced, Paced-pass, Paced-probe, Paced-bound,
}

-- What holds of the shared state, with `n` probes due and the limiter's settings.
pub record Safe (l : Limiter) (start n : ℕ) (s : Shared) : Type 0 where
  pub threshold : s.limiter.threshold ≡ l.threshold
  pub interval : s.limiter.probe_interval ≡ l.probe_interval
  pub below : s.limiter.consecutive_failures < l.threshold
  pub opened :
      s.opens + (s.trips + s.recoveries)
      ≤ s.limiter.consecutive_failures + (s.trips + s.recoveries) * l.threshold
  pub recovered : s.recoveries + n ≤ s.probes
  pub paced : Paced s.limiter.last_probe s.probes l.probe_interval start s.clock

less_due-Safe : (l : Limiter) (start n : ℕ) (s : Shared) → Safe l start (suc n) s → Safe l start n s
less_due-Safe l start n s h = record {
  threshold = h.threshold;
  interval = h.interval;
  below = h.below;
  opened = h.opened;
  recovered = omega (arith, h.recovered);
  paced = h.paced;
}

module _ (visit : Keys → Keys) (a : Arguments) (l : Limiter) (start n : ℕ) where
  on_failure-Safe :
      (reached : Bool) (s : Shared)
      → Safe l start n s
      → (reached ≡ false → suc s.limiter.consecutive_failures < l.threshold)
      → Safe l start (with_due (on_failure reached s).1 n) (on_failure reached s).0
  on_failure-Safe true s h under = record {
    threshold = h.threshold;
    interval = h.interval;
    below = omega (arith, h.below);
    opened = omega (arith, h.opened, h.below);
    recovered = h.recovered;
    paced = h.paced;
  }
  on_failure-Safe false s h under = record {
    threshold = h.threshold;
    interval = h.interval;
    below = under refl;
    opened = omega (arith, h.opened);
    recovered = h.recovered;
    paced = h.paced;
  }

  failure-Safe :
      (s : Shared) → Safe l start n s → Safe l start (with_due (failure s).1 n) (failure s).0
  failure-Safe s h = on_failure-Safe _ s h (λ e. let t = h.threshold in ground (arith, e, t))

  on_probe-Safe :
      (recent : Bool) (s : Shared) (t : ℕ)
      → Safe l start n s
      → probed_since s.limiter.last_probe s.clock s.limiter.probe_interval ≡ recent
      → s.clock ≤ t
      → Safe l start (with_due (on_probe recent t s).1 n) (on_probe recent t s).0
  on_probe-Safe true s t h e le = h
  on_probe-Safe false s t h e le = record {
    threshold = h.threshold;
    interval = h.interval;
    below = h.below;
    opened = h.opened;
    recovered = omega (arith, h.recovered);
    paced =
        Paced-probe s.limiter.last_probe s.probes l.probe_interval start s.clock t h.paced
          (subst (λ i. probed_since s.limiter.last_probe s.clock i ≡ false) h.interval e) le;
  }

  try_time-Safe :
      (s : Shared) (t : ℕ)
      → Safe l start n s
      → s.clock ≤ t
      → Safe l start (with_due (try_time t s).1 n) (try_time t s).0
  try_time-Safe s t h le = on_probe-Safe _ s t h refl le

  on_pong-Safe : (s : Shared) → Safe l start (suc n) s → Safe l start n (on_pong s)
  on_pong-Safe s h = record {
    threshold = h.threshold;
    interval = h.interval;
    below = omega (arith, h.below);
    opened = omega (arith, h.opened, h.below);
    recovered = omega (arith, h.recovered);
    paced = h.paced;
  }

  on_refusal-Safe :
      (mode : Mode) (s : Shared)
      → Safe l start n s
      → Safe l start (with_due (on_refusal visit a mode s).1 n) (on_refusal visit a mode s).0
  on_refusal-Safe deny s h = h
  on_refusal-Safe memory s h = record {
    threshold = h.threshold;
    interval = h.interval;
    below = h.below;
    opened = h.opened;
    recovered = h.recovered;
    paced = h.paced;
  }

Move-Safe :
    (visit : Keys → Keys) (a : Arguments) (l : Limiter) (start n : ℕ) (s s' : Shared) (p p' : Place)
    → Move visit a s p s' p'
    → Safe l start (with_due p n) s
    → Safe l start (with_due p' n) s'
Move-Safe visit a l start n _ _ _ _ (ask s) h = asked_due s.limiter.degraded
  where
    asked_due : (b : Bool) → Safe l start (with_due (if b then probing else at_redis) n) s
    asked_due true = h
    asked_due false = h
Move-Safe visit a l start n _ _ _ _ (count s k) h = h
Move-Safe visit a l start n _ _ _ _ (fail s) h = h
Move-Safe visit a l start n _ _ _ _ (record_failure s) h = failure-Safe visit a l start n s h
Move-Safe visit a l start n _ _ _ _ (probe s t le) h = try_time-Safe visit a l start n s t h le
Move-Safe visit a l start n _ _ _ _ (pong s) h = h
Move-Safe visit a l start n _ _ _ _ (no_pong s) h = less_due-Safe l start n s h
Move-Safe visit a l start n _ _ _ _ (recover s) h = on_pong-Safe visit a l start n s h
Move-Safe visit a l start n _ _ _ _ (refuse s) h =
    on_refusal-Safe visit a l start n s.limiter.mode s h

Step-Safe :
    (visit : Keys → Keys) (l : Limiter) (start : ℕ) (s s' : Shared)
    (calls calls' : List (Arguments × Place))
    → Step visit s calls s' calls'
    → Safe l start (all_due calls) s
    → Safe l start (all_due calls') s'
Step-Safe visit l start _ _ _ _ (move before after a s s' p p' m) h =
    subst (λ n. Safe l start n s') (sym (all_due-++ before after a p'))
      (Move-Safe visit a l start (all_due (before ++ after)) s s' p p' m
        (subst (λ n. Safe l start n s) (all_due-++ before after a p) h))
Step-Safe visit l start _ _ _ _ (arrive s calls a) h = h
Step-Safe visit l start _ _ _ _ (pass s calls t le) h = record {
  threshold = h.threshold;
  interval = h.interval;
  below = h.below;
  opened = h.opened;
  recovered = h.recovered;
  paced = Paced-pass s.limiter.last_probe s.probes l.probe_interval start s.clock t h.paced le;
}

Reach-Safe :
    (visit : Keys → Keys) (opts : Options) (start : ℕ) (s : Shared)
    (calls : List (Arguments × Place))
    → Reach visit (new_limiter opts) start s calls
    → Safe (new_limiter opts) start (all_due calls) s
unfolding new_limiter
Reach-Safe visit opts start _ _ begun = record {
  threshold = refl;
  interval = refl;
  below = (new_limiter-IsValid opts).below;
  opened = omega arith;
  recovered = omega arith;
  paced = (refl, omega arith);
}
Reach-Safe visit opts start s calls (later r _ before _ c t) =
    Step-Safe visit (new_limiter opts) start r s before calls t
      (Reach-Safe visit opts start r before c)

-- However the calls of Allow on a new limiter interleave: the failure counter is below the threshold;
-- at most threshold - 1 requests are let through for each time the limiter degraded or recovered, and
-- once more; each recovery had a probe of its own, beside those that calls still wait for; and the
-- intervals of all probes but one fit into the time since the start.
pub Reach-bounded :
    (visit : Keys → Keys) (opts : Options) (start : ℕ) (s : Shared)
    (calls : List (Arguments × Place))
    → Reach visit (new_limiter opts) start s calls
    → let l = new_limiter opts in
      (s.limiter.consecutive_failures < l.threshold)
      × (s.opens ≤ suc (s.trips + s.recoveries) * (l.threshold - 1))
      × (s.recoveries + all_due calls ≤ s.probes)
      × (s.probes * l.probe_interval + start ≤ s.clock + l.probe_interval)
Reach-bounded visit opts start s calls c =
    let h = Reach-Safe visit opts start s calls c in
    (
      h.below,
      fewer s.opens s.limiter.consecutive_failures (s.trips + s.recoveries)
          (new_limiter opts).threshold h.opened h.below,
      h.recovered,
      Paced-bound s.limiter.last_probe s.probes (new_limiter opts).probe_interval start s.clock
          h.paced,
    )
  where
    fewer : (o f r t : ℕ) → o + r ≤ f + r * t → f < t → o ≤ suc r * (t - 1)
    fewer o f r zero x y = omega (arith, y)
    fewer o f r (suc t) x y =
        let same : suc t - 1 ≡ t = omega arith in
        subst (λ k. o ≤ suc r * k) (sym same) (omega (arith, x, y))
