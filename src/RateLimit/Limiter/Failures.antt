-- ===== src/RateLimit/Limiter/Failures.antt =====
-- What Allow does while Redis is down, and what the failure counter counts.
use native.Mathlib.Decide.{dec_le}
use swayrider_api.Base.{
  ℕ, zero, suc, ◌+◌, ◌-◌, ◌/◌, ◌≤◌, ◌<◌, String, ◌≡◌, refl, ◌∙◌, inl, inr, true, false, Option,
  none, some, List, [], ◌∷◌, arith, ℤ, Bool-cases, if-true, if-false, length,
}
use swayrider_api.RateLimit.Memory.{Memory, Keys}
use swayrider_api.RateLimit.Memory
use swayrider_api.RateLimit.Limiter.{
  Backend, Mode, memory, deny, Limiter, Verdict, decided, err_degraded, probed_since, try_probe,
  fallback_allow, degraded_allow, redis_allow, allow,
}
use swayrider_api.RateLimit.Limiter.Outage.{
  allow_degraded, allow_healthy, redis_error, redis_answer, error_below, error_reached,
}

-- Redis is down: no pipeline is executed and no ping is answered.
pub record IsDown {W : Type 0} (backend : Backend W) : Type 0 where
  pub no_exec : (k : String) (t d : ℕ) (w : W) → (backend.exec k t d w).0 ≡ none
  pub no_ping : (w : W) → (backend.ping w).0 ≡ false

module _ (visit : Keys → Keys) {W : Type 0} (backend : Backend W)
    (silent : (w : W) → (backend.ping w).0 ≡ false) (key : String) (limit : ℤ) (window : ℕ) where
  -- A probe that gets no answer changes the time of the last probe only.
  probe_unanswered :
      (l : Limiter) (w : W)
      → (p : Option ℕ) × (w' : W) × (try_probe visit backend l w
          ≡ (false, record l { last_probe = p }, w'))
  unfolding try_probe
  probe_unanswered l w =
      let (t, w₁) = backend.now w in
      elim (Bool-cases (probed_since l.last_probe t l.probe_interval)) [
        | inl recent ↦ (l.last_probe, w₁, if-true _ _ _ recent)
        | inr due ↦
            let (t₂, w₂) = backend.now w₁ in
            (
              some t₂,
              (backend.ping w₂).1,
              if-false _ _ _ due ∙ if-false (backend.ping w₂).0 _ _ (silent w₂),
            )
      ]

  -- In deny mode every request is refused, and nothing but the probe time changes.
  degraded_deny :
      (retry : Limiter → W → Option (Verdict × Limiter × W)) (l : Limiter) (w : W)
      → l.mode ≡ deny
      → (p : Option ℕ) × (w' : W) × (degraded_allow visit backend key limit window retry l w
          ≡ some (err_degraded, record l { last_probe = p }, w'))
  unfolding degraded_allow
  degraded_deny retry l w m =
      let (p, w', e) = probe_unanswered l w in (p, w', rw (e, degraded_allow) (rw m))

  -- In memory mode the fallback decides, at the time the clock shows after the probe.
  degraded_memory :
      (retry : Limiter → W → Option (Verdict × Limiter × W)) (l : Limiter) (w : W)
      → l.mode ≡ memory
      → (p : Option ℕ) × (t : ℕ) × (w' : W) × (degraded_allow visit backend key limit window retry l
            w
          ≡ some (
            decided (Memory.allow visit l.fallback key limit window (t / 1000000)).0,
            record l {
              last_probe = p;
              fallback = (Memory.allow visit l.fallback key limit window (t / 1000000)).1;
            },
            w',
          ))
  unfolding degraded_allow fallback_allow
  degraded_memory retry l w m =
      let (p, w', e) = probe_unanswered l w in
      (p, (backend.now w').0, (backend.now w').1, rw (e, degraded_allow) (rw m))

  -- While no ping is answered, a degraded limiter stays degraded.
  degraded_allow-stays :
      (retry : Limiter → W → Option (Verdict × Limiter × W)) (l : Limiter) (w : W)
      → l.degraded ≡ true
      → (v : Verdict) × (l' : Limiter) × (w' : W) × (degraded_allow visit backend key limit window
            retry l w
          ≡ some (v, l', w'))
        × (l'.degraded ≡ true)
  degraded_allow-stays retry l w d = cases l.mode refl
    where
      cases :
          (m : Mode)
          → l.mode ≡ m
          → (v : Verdict) × (l' : Limiter) × (w' : W) × (degraded_allow visit backend key limit
                window retry l w
              ≡ some (v, l', w'))
            × (l'.degraded ≡ true)
      cases deny e = let (p, w', done) = degraded_deny retry l w e in (_, _, _, done, d)
      cases memory e = let (p, t, w', done) = degraded_memory retry l w e in (_, _, _, done, d)

  -- Calls of Allow with the same arguments, one after another: the state they leave.
  pub run : ℕ → Limiter → W → Option (Limiter × W)
  run zero l w = some (l, w)
  run (suc n) l w = elim (allow visit backend key limit window 2 l w) [
    | none ↦ none
    | some (v, l', w') ↦ run n l' w'
  ]

  run_degraded :
      (n : ℕ) (l : Limiter) (w : W)
      → l.degraded ≡ true
      → (l' : Limiter) × (w' : W) × (run n l w ≡ some (l', w')) × (l'.degraded ≡ true)
  unfolding run
  run_degraded zero l w d = (l, w, refl, d)
  run_degraded (suc n) l w d =
      let (v, l', w', e, d') =
        degraded_allow-stays (redis_allow visit backend key limit window 2) l w d in
      let (l₂, w₂, e₂, d₂) = run_degraded n l' w' d' in
      (l₂, w₂, rw (allow_degraded visit backend key limit window 2 l w d ∙ e, run) e₂, d₂)

-- A Redis that answers the pipelines of successive calls as the list says, none for an error, and
-- answers no ping; the clock stands still.
abbrev pub scripted : Backend (List (Option ℕ))
scripted = record {
  now = λ w. (0, w);
  exec = λ k t d. elim [ [] ↦ (none, []) | r ∷ w ↦ (r, w) ];
  ping = λ w. (false, w);
}

abbrev pub failures : List (Option ℕ) → ℕ
failures [] = 0
failures (none ∷ w) = suc (failures w)
failures (some n ∷ w) = failures w

-- The limiter after a sequence of calls depends on the number of all the failures among them:
-- answers of Redis in between do not start the count again.
pub run-failures :
    (visit : Keys → Keys) (key : String) (limit : ℤ) (window : ℕ) (l : Limiter)
    (w : List (Option ℕ))
    → l.degraded ≡ false
    → l.consecutive_failures < l.threshold
    → (l' : Limiter) × (w' : List (Option ℕ)) × (run visit scripted
          (λ w. refl)
          key
          limit
          window
          (length w)
          l
          w
        ≡ some (l', w'))
      × (l.consecutive_failures + failures w < l.threshold
          → (l'.degraded ≡ false) × (l'.consecutive_failures ≡ l.consecutive_failures + failures w))
      × (l.threshold ≤ l.consecutive_failures + failures w → l'.degraded ≡ true)
unfolding run
run-failures visit key limit window l [] h below =
    (l, [], refl, λ k. (h, omega arith), λ k. absurd (omega arith))
run-failures visit key limit window l (some n ∷ w) h below =
    let start =
      allow_healthy visit scripted key limit window 2 l (some n ∷ w) h
      ∙ redis_answer visit scripted key limit window 1 l (some n ∷ w) n refl in
    let (l', w', e, a, b) = run-failures visit key limit window l w h below in
    (l', w', rw (start, run) e, a, b)
run-failures visit key limit window l (none ∷ w) h below =
    let start =
      allow_healthy visit scripted key limit window 2 l (none ∷ w) h
      ∙ redis_error visit scripted key limit window 1 l (none ∷ w) refl in
    elim (dec_le l.threshold (l.consecutive_failures + 1)) [
      | no more ↦
          let next : Limiter = record l { consecutive_failures = l.consecutive_failures + 1 } in
          let step = start ∙ error_below visit scripted key limit window _ l w (omega arith) in
          let (l', w', e, a, b) = run-failures visit key limit window next w h (omega arith) in
          (
            l',
            w',
            rw (step, run) e,
            λ k. let (x, y) = a (omega arith) in (x, omega (arith, y)),
            λ k. b (omega arith),
          )
      | yes full ↦
          let step = start ∙ error_reached visit scripted key limit window _ l w full in
          let (v, l', w', e, d) =
            degraded_allow-stays visit scripted (λ w. refl) key limit window
              (redis_allow visit scripted key limit window 1)
              (record l { degraded = true; consecutive_failures = 0 }) w refl in
          let (l₂, w₂, e₂, d₂) =
            run_degraded visit scripted (λ w. refl) key limit window (length w) l' w' d in
          (l₂, w₂, rw (step ∙ e, run) e₂, λ k. absurd (omega arith), λ k. d₂)
    ]

module _ (visit : Keys → Keys) {W : Type 0} (backend : Backend W) (down : IsDown backend)
    (key : String) (limit : ℤ) (window : ℕ) where
  -- The results of `n` calls, as far as they return.
  pub verdicts : ℕ → Limiter → W → List (Option Verdict)
  verdicts zero l w = []
  verdicts (suc n) l w = elim (allow visit backend key limit window 2 l w) [
    | none ↦ none ∷ []
    | some (v, l', w') ↦ some v ∷ verdicts n l' w'
  ]

-- `k` requests let through, all later ones refused
abbrev pub outage : ℕ → ℕ → List (Option Verdict)
outage zero k = []
outage (suc n) zero = some err_degraded ∷ outage n zero
outage (suc n) (suc k) = some (decided true) ∷ outage n k

verdicts-degraded :
    (visit : Keys → Keys) {W : Type 0} (backend : Backend W) (down : IsDown backend) (key : String)
    (limit : ℤ) (window n : ℕ) (l : Limiter) (w : W)
    → l.mode ≡ deny
    → l.degraded ≡ true
    → verdicts visit backend down key limit window n l w ≡ outage n 0
unfolding verdicts
verdicts-degraded visit backend down key limit window zero l w m d = refl
verdicts-degraded visit backend down key limit window (suc n) l w m d =
    let (p, w', e) =
      degraded_deny visit backend down.no_ping key limit window
        (redis_allow visit backend key limit window 2) l w m in
    rw (allow_degraded visit backend key limit window 2 l w d ∙ e, verdicts)
      (rw (
        verdicts-degraded visit backend down key limit window n (record l { last_probe = p }) w' m
          d))

-- In deny mode, when Redis is down: the limiter lets through the requests that are left below its
-- threshold and refuses every later one with ErrDegraded, for any number of requests.
pub verdicts-outage :
    (visit : Keys → Keys) {W : Type 0} (backend : Backend W) (down : IsDown backend) (key : String)
    (limit : ℤ) (window n : ℕ) (l : Limiter) (w : W)
    → l.mode ≡ deny
    → l.degraded ≡ false
    → l.consecutive_failures < l.threshold
    → verdicts visit backend down key limit window n l w
      ≡ outage n (l.threshold - 1 - l.consecutive_failures)
unfolding verdicts
verdicts-outage visit backend down key limit window zero l w m h below = refl
verdicts-outage visit backend down key limit window (suc n) l w m h below =
    let start =
      allow_healthy visit backend key limit window 2 l w h
      ∙ redis_error visit backend key limit window 1 l w (down.no_exec key _ window _) in
    elim (dec_le l.threshold (l.consecutive_failures + 1)) [
      | no more ↦
          let step = start ∙ error_below visit backend key limit window _ l _ (omega arith) in
          let next : Limiter = record l { consecutive_failures = l.consecutive_failures + 1 } in
          let left : l.threshold - 1 - l.consecutive_failures
              ≡ suc (l.threshold - 1 - next.consecutive_failures) =
            omega arith in
          rw (step, verdicts)
            (rw (
              verdicts-outage visit backend down key limit window n next _ m h (omega arith),
              left,
            ))
      | yes full ↦
          let step = start ∙ error_reached visit backend key limit window _ l _ full in
          let (p, w', e) =
            degraded_deny visit backend down.no_ping key limit window
              (redis_allow visit backend key limit window 1)
              (record l { degraded = true; consecutive_failures = 0 }) _ m in
          let left : l.threshold - 1 - l.consecutive_failures ≡ 0 = omega arith in
          rw (step ∙ e, verdicts)
            (rw (
              left,
              verdicts-degraded visit backend down key limit window n
                  (record l { degraded = true; consecutive_failures = 0; last_probe = p }) w' m
                  refl,
            ))
    ]
