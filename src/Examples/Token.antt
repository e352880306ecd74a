-- ===== src/Examples/Token.antt =====
-- Two rounds of the refresh loop (internal/servicetoken/manager.go).
use swayrider_api.Base.{ℕ, ◌+◌, ◌≤◌, ◌<◌, ◌≡◌, refl, ◌⊎◌, some, [], ◌∷◌, arith}
use swayrider_api.ServiceToken.{
  fetched, fetch_failed, refresh, note_stale, is_after, hour_since, ttl, three_minutes,
}
use swayrider_api.ServiceToken.Loop.{World, round, Reach, started, later, refreshed, start}
use swayrider_api.ServiceToken.Episode.{IsSound, Reach-IsSound, Reach-ttl}

-- A token that ends after ten minutes, and then a failure once it has ended.
abbrev first : World
first = refreshed (fetched "t1" (some 600000000000)) 0 0 (start 0)

abbrev second_round : World
second_round = refreshed fetch_failed 700000000000 700000000001 first

waited : first.now + ttl first.now first.manager ≤ 700000000000
unfolding ttl refresh
waited = omega arith

ended : Reach 0 second_round
ended =
    later (started (fetched "t1" (some 600000000000)) 0 0 (omega arith) (omega arith))
      (round first fetch_failed 700000000000 700000000001 waited (omega arith))

Reach-IsSound_example : IsSound second_round
Reach-IsSound_example = Reach-IsSound 0 second_round ended

Reach-ttl_example :
    (0 < ttl second_round.now second_round.manager)
    × (((e : ℕ) × (second_round.manager.expiry ≡ some e)
          × (second_round.now + ttl second_round.now second_round.manager + three_minutes ≡ e))
        ⊎ (ttl second_round.now second_round.manager ≡ 30000000000)
          × ((e : ℕ) → second_round.manager.expiry ≡ some e → e ≤ second_round.now + three_minutes))
Reach-ttl_example = Reach-ttl 0 second_round ended

-- The failure was logged, and the token stays.
second_round-logs : second_round.logs ≡ 700000000001 ∷ []
unfolding refresh note_stale is_after hour_since
second_round-logs = refl
