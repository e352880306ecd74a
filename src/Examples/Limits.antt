-- ===== src/Examples/Limits.antt =====
-- The rate limiter of internal/ratelimit and its middleware at small inputs.
use swayrider_api.Base.{
  ℕ, suc, ◌+◌, ◌-◌, ◌/◌, ◌≤◌, ◌<◌, String, ◌≡◌, refl, true, false, Option, none, some, List, [],
  ◌∷◌, arith, length, pos, within,
}
use swayrider_api.RateLimit.Memory.{Memory, Window, Keys, recent, milliseconds}
use swayrider_api.RateLimit.Memory
use swayrider_api.RateLimit.Memory.Sliding.{Event, count_since, serve_all, allow_sliding}
use swayrider_api.RateLimit.Memory.Eviction.{Visits, IsCapped, allow-IsCapped}
use swayrider_api.RateLimit.Limiter.{Limiter, Backend, Verdict, Mode, deny}
use swayrider_api.RateLimit.Limiter
use swayrider_api.RateLimit.Limiter.Outage.{IsValid, allow-returns_IsValid}
use swayrider_api.RateLimit.Limiter.Failures.{
  IsDown, run, scripted, failures, run-failures, verdicts, outage, verdicts-outage,
}

abbrev in_order : Keys → Keys
in_order l = l

in_order-Visits : Visits in_order
in_order-Visits = record { same = λ l e. (λ h. h, λ h. h) }

abbrev past : List Event
past = ("a", 1000) ∷ ("b", 1500) ∷ ("a", 61500) ∷ []

abbrev sixty_seconds : ℕ
sixty_seconds = 60000000000

allow_sliding_example :
    (Memory.allow in_order
      (serve_all in_order (pos 2) sixty_seconds (record { keys = []; max_keys = 4 }) past)
      "a"
      (pos 2)
      sixty_seconds
      62000).0
    ≡ within (count_since (62000 - sixty_seconds / 1000000) "a" past + 1) (pos 2)
allow_sliding_example =
    allow_sliding in_order (pos 2) sixty_seconds 4 past "a" 62000 (omega arith)
      (omega arith, (omega arith, (omega arith, (omega arith, tt))))

abbrev full : Memory
full = record { keys = ("a", record { times = 5 ∷ []; last_touch = 5 }) ∷ []; max_keys = 1 }

a-ne-empty : ◌≡◌ {A = String} "a" "" → ⊥
a-ne-empty e = cc

b-ne-empty : ◌≡◌ {A = String} "b" "" → ⊥
b-ne-empty e = cc

full-Capped : IsCapped full
full-Capped = record { positive = omega arith; bounded = omega arith; named = (a-ne-empty, tt) }

abbrev fresh : Limiter
fresh = record {
  fallback = record { keys = []; max_keys = 4 };
  mode = deny;
  threshold = 3;
  probe_interval = 5000000000;
  consecutive_failures = 0;
  degraded = false;
  last_probe = none;
}

fresh-Valid : IsValid fresh
fresh-Valid = record { positive = omega arith; below = omega arith; reset = λ e. refl }

abbrev script : List (Option ℕ)
script = none ∷ some 1 ∷ none ∷ some 2 ∷ none ∷ []

allow-returns_IsValid_example :
    (v : Verdict) × (l' : Limiter) × (w' : List (Option ℕ)) × (Limiter.allow in_order scripted "k"
        (pos 5)
        sixty_seconds
        2
        fresh
        script
      ≡ some (v, l', w'))
    × IsValid l'
allow-returns_IsValid_example =
    allow-returns_IsValid in_order scripted "k" (pos 5) sixty_seconds fresh script fresh-Valid
      (omega arith)

allow-IsCapped_example : IsCapped (Memory.allow in_order full "b" (pos 2) sixty_seconds 9).1
allow-IsCapped_example =
    allow-IsCapped in_order in_order-Visits full "b" (pos 2) sixty_seconds 9 b-ne-empty full-Capped

run-failures_example :
    (l' : Limiter) × (w' : List (Option ℕ)) × (run in_order scripted
        (λ w. refl)
        "k"
        (pos 5)
        sixty_seconds
        (length script)
        fresh
        script
      ≡ some (l', w'))
    × (0 + failures script < 3
        → (l'.degraded ≡ false) × (l'.consecutive_failures ≡ 0 + failures script))
    × (3 ≤ 0 + failures script → l'.degraded ≡ true)
run-failures_example =
    run-failures in_order "k" (pos 5) sixty_seconds fresh script refl (omega arith)

-- A Redis that never answers.
abbrev dead : Backend ℕ
dead = record { now = λ w. (w, suc w); exec = λ k t d w. (none, w); ping = λ w. (false, w) }

dead-Down : IsDown dead
dead-Down = record { no_exec = λ k t d w. refl; no_ping = λ w. refl }

verdicts-outage_example :
    verdicts in_order dead dead-Down "k" (pos 5) sixty_seconds 4 fresh 100 ≡ outage 4 (3 - 1 - 0)
verdicts-outage_example =
    verdicts-outage in_order dead dead-Down "k" (pos 5) sixty_seconds 4 fresh 100 refl refl
      (omega arith)
