-- ===== src/RateLimit/Redis.antt =====
-- internal/ratelimit/limiter.go: the pipeline of redisAllow, over a Redis that answers. Scores and
-- times are Unix milliseconds, which float64 holds exactly; windows are nanoseconds.
pub mod Refined
use swayrider_api.Base.{
  ℕ, suc, ◌+◌, ◌-◌, ◌/◌, String, Bool, true, Option, none, some, List, [], ◌∷◌, ◌&&◌, ◌==◌,
  if◌then◌else◌, ltb, ℤ, within,
}
use swayrider_api.RateLimit.Memory.{Keys, milliseconds}
use swayrider_api.RateLimit.Limiter.{Backend, Limiter, Verdict, decided, allow}

-- The commands of the pipeline, for a key: ZREMRANGEBYSCORE from 0, ZADD of a score and a member,
-- ZCARD, and EXPIRE in milliseconds, which go-redis cuts to whole seconds: the same for the windows of
-- a minute that the code asks for. `new_id` is uuid.NewString.
pub record SortedSets (W : Type 0) : Type 0 where
  pub zremrangebyscore : String → ℕ → W → W
  pub zadd : String → ℕ → String → W → W
  pub zcard : String → W → ℕ
  pub expire : String → ℕ → W → W
  pub new_id : W → String

module _ {W : Type 0} (redis : SortedSets W) where
  unfoldable pub pipeline : String → ℕ → ℕ → W → ℕ × W
  pipeline key now window w =
      let pruned = redis.zremrangebyscore key (now - milliseconds window) w in
      let added = redis.zadd key now (redis.new_id w) pruned in
      (redis.zcard key added, redis.expire key (milliseconds window + 1000) added)

  -- The backend of one call, at the time `now` in nanoseconds.
  abbrev pub backend_at : ℕ → Backend W
  backend_at now = record {
    now = λ w. (now, w);
    exec = λ key t window w. let r = pipeline key t window w in (some r.0, r.1);
    ping = λ w. (true, w);
  }

  -- A request: its key, its limit and its time in nanoseconds.
  abbrev pub Call : Type 0
  Call = String × ℤ × ℕ

  -- Redis at a later time: keys past their deadlines are gone.
  module _ (elapse : ℕ → W → W) (visit : Keys → Keys) (window : ℕ) where
    -- The verdicts of Allow on calls that follow one another.
    unfoldable pub verdicts : List Call → Limiter → W → List Verdict
    verdicts [] l w = []
    verdicts ((key, limit, now) ∷ calls) l w =
        elim (allow visit (backend_at now) key limit window 2 l (elapse (now / 1000000) w)) [
          | none ↦ []
          | some (v, l', w') ↦ v ∷ verdicts calls l' w'
        ]
