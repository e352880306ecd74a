-- ===== src/Examples/Threads.antt =====
-- Two calls of the rate limiter at once, while Redis is down (internal/ratelimit).
use swayrider_api.Base.{suc, ◌+◌, ◌-◌, ◌*◌, ◌≤◌, ◌<◌, true, [], ◌∷◌, pos, arith}
use swayrider_api.RateLimit.Memory.{Keys}
use swayrider_api.RateLimit.Limiter.{Options, new_limiter, decided}
use swayrider_api.RateLimit.Limiter.Threads.{
  Arguments, at_redis, asked, failed, probing, pinging, answered, Shared, failure, try_time, fresh,
  ask, fail, record_failure, probe, move, arrive, Reach, begun, later,
}
use swayrider_api.RateLimit.Limiter.Threads.Bounds.{Reach-bounded}
use swayrider_api.RateLimit.Limiter.Threads.Paced.{all_due}

abbrev same : Keys → Keys
same k = k

abbrev opts : Options
opts = record {
  degrade_mode = "deny";
  degrade_threshold = pos 2;
  probe_interval = pos 15;
  max_memory_keys = pos 0;
}

abbrev ann : Arguments
ann = record { key = "ann"; limit = pos 5; window = 60 }

abbrev bob : Arguments
bob = record { key = "bob"; limit = pos 5; window = 60 }

abbrev idle_state : Shared
idle_state = fresh (new_limiter opts) 100

-- Both calls reach Redis and fail; one is let through, the other degrades the limiter and probes.
abbrev let_through : Shared
let_through = (failure idle_state).0

abbrev degraded_state : Shared
degraded_state = (failure let_through).0

abbrev probed_state : Shared
probed_state = (try_time 103 degraded_state).0

both : Reach same (new_limiter opts) 100 idle_state ((bob, failed) ∷ (ann, failed) ∷ [])
unfolding new_limiter
both =
    later idle_state idle_state _ _
      (later idle_state idle_state _ _
        (later idle_state idle_state _ _
          (later idle_state idle_state _ _
            (later idle_state idle_state _ _
              (later idle_state idle_state _ _ begun (arrive idle_state [] ann))
              (arrive idle_state _ bob))
            (move [] ((ann, asked) ∷ []) bob idle_state idle_state asked at_redis (ask idle_state)))
          (move ((bob, at_redis) ∷ []) [] ann idle_state idle_state asked at_redis
            (ask idle_state)))
        (move [] ((ann, at_redis) ∷ []) bob idle_state idle_state at_redis failed
          (fail idle_state)))
      (move ((bob, failed) ∷ []) [] ann idle_state idle_state at_redis failed (fail idle_state))

tripped :
    Reach same
      (new_limiter opts)
      100
      probed_state
      ((bob, pinging) ∷ (ann, answered (decided true)) ∷ [])
unfolding new_limiter
tripped =
    later degraded_state probed_state _ _
      (later let_through degraded_state _ _
        (later idle_state let_through _ _ both (
          move ((bob, failed) ∷ []) [] ann idle_state let_through failed (answered (decided true))
            (record_failure idle_state)))
        (move [] ((ann, answered (decided true)) ∷ []) bob let_through degraded_state failed probing
          (record_failure let_through)))
      (move [] ((ann, answered (decided true)) ∷ []) bob degraded_state probed_state probing pinging
        (probe degraded_state 103 (omega arith)))

Reach-bounded_example :
    (probed_state.limiter.consecutive_failures < (new_limiter opts).threshold)
    × (probed_state.opens
        ≤ suc (probed_state.trips + probed_state.recoveries) * ((new_limiter opts).threshold - 1))
    × (probed_state.recoveries + all_due ((bob, pinging) ∷ (ann, answered (decided true)) ∷ [])
        ≤ probed_state.probes)
    × (probed_state.probes * (new_limiter opts).probe_interval + 100
        ≤ probed_state.clock + (new_limiter opts).probe_interval)
Reach-bounded_example = Reach-bounded same opts 100 probed_state _ tripped
