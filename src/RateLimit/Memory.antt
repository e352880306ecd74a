-- ===== src/RateLimit/Memory.antt =====
-- internal/ratelimit/memory.go: the in-process limiter. The map is an association list; Go visits a
-- map in any order, so the order of evictOldest's loop is the parameter `visit`. Times are Unix
-- milliseconds and durations nanoseconds.
pub mod Eviction
pub mod Sliding
use swayrider_api.Base.{
  ℕ, zero, suc, ◌+◌, ◌-◌, ◌/◌, ◌≤◌, String, ◌≡◌, Bool, true, false, not, ◌&&◌, Option, none, some,
  List, [], ◌∷◌, ◌++◌, ◌==◌, if◌then◌else◌, ltb, leb, length, keep_if, ℤ, pos, negsuc, within,
}

pub record Window : Type 0 where
  pub times : List ℕ
  pub last_touch : ℕ

abbrev pub Keys : Type 0
Keys = List (String × Window)

pub record Memory : Type 0 where
  pub keys : Keys
  pub max_keys : ℕ

unfoldable pub find : String → Keys → Option Window
find k [] = none
find k ((j, w) ∷ l) = if j == k then some w else find k l

-- m.keys[k] = w
unfoldable pub put : String → Window → Keys → Keys
put k w [] = (k, w) ∷ []
put k w ((j, u) ∷ l) = if j == k then (j, w) ∷ l else (j, u) ∷ put k w l

unfoldable pub delete : String → Keys → Keys
delete k [] = []
delete k ((j, w) ∷ l) = if j == k then delete k l else (j, w) ∷ delete k l

unfoldable pub new_memory : ℤ → Memory
new_memory (pos zero) = record { keys = []; max_keys = 100000 }
new_memory (pos (suc n)) = record { keys = []; max_keys = suc n }
new_memory (negsuc n) = record { keys = []; max_keys = 100000 }

-- The loop of evictOldest: the victim and its last touch, none while `first` is true.
unfoldable pub oldest_from : Option (String × ℕ) → Keys → Option (String × ℕ)
oldest_from best [] = best
oldest_from none ((k, w) ∷ l) = oldest_from (some (k, w.last_touch)) l
oldest_from (some (v, t)) ((k, w) ∷ l) =
    oldest_from (if ltb w.last_touch t then some (k, w.last_touch) else some (v, t)) l

abbrev pub milliseconds : ℕ → ℕ
milliseconds d = d / 1000000

-- The entries of `times` that are still in the window, oldest first.
unfoldable pub recent : ℕ → List ℕ → List ℕ
recent start times = keep_if (λ ts. leb start ts) times

module _ (visit : Keys → Keys) where
  unfoldable pub evict_oldest : Keys → Keys
  evict_oldest keys = elim (oldest_from none (visit keys)) [
    | none ↦ keys
    | some (victim, t) ↦ if victim == "" then keys else delete victim keys
  ]

  -- The map with room for a key that it does not hold.
  unfoldable pub make_room : Memory → Keys
  make_room m = if leb m.max_keys (length m.keys) then evict_oldest m.keys else m.keys

  -- The map with the window of `key` to work on.
  unfoldable pub open_window : Memory → String → ℕ → Keys × Window
  open_window m key now = elim (find key m.keys) [
    | some w ↦ (m.keys, w)
    | none ↦
        let w : Window = record { times = []; last_touch = now } in (put key w (make_room m), w)
  ]

  -- memoryLimiter.Allow at the time `now`
  unfoldable pub allow : Memory → String → ℤ → ℕ → ℕ → Bool × Memory
  allow m key limit window now =
      let (keys, w) = open_window m key now in
      let times = recent (now - milliseconds window) w.times ++ now ∷ [] in
      (
        within (length times) limit,
        record m { keys = put key (record { times = times; last_touch = now }) keys },
      )
