-- ===== src/Circuit.antt =====
-- internal/circuitbreaker/registry.go: the settings of the breakers and their registry. The breakers
-- of package gobreaker are a type G behind the parameter `gobreaker`; the map is an association list.
-- Its counts are uint32, and arithmetic on them wraps.
pub mod Tripping
use swayrider_api.Base.{
  ℕ, ◌*◌, ◌/◌, ◌%◌, ◌^◌, String, Bool, true, false, List, [], ◌∷◌, ◌⊎◌, ◌==◌, if◌then◌else◌, ltb,
  leb, map,
}
use swayrider_api.Grpc.{GoError}

-- gobreaker.Counts
pub record Counts : Type 0 where
  pub requests : ℕ
  pub total_failures : ℕ
  pub consecutive_failures : ℕ

unfoldable pub ready_to_trip : Counts → Bool
ready_to_trip counts =
    if leb 5 counts.consecutive_failures
    then true
    else if leb 10 counts.requests
    then ltb 50 ((counts.total_failures * 100) % 2 ^ 32 / counts.requests)
    else false

-- gobreaker.Settings with the fields that New sets; durations are nanoseconds.
pub record Settings : Type 0 where
  pub name : String
  pub max_requests : ℕ
  pub interval : ℕ
  pub timeout : ℕ
  pub ready_to_trip : Counts → Bool

unfoldable pub settings_of : String → Settings
settings_of name = record {
  name = name;
  max_requests = 1;
  interval = 30000000000;
  timeout = 10000000000;
  ready_to_trip = ready_to_trip;
}

-- NewCircuitBreaker, and Execute in a world W, which gives the breaker's new state too.
pub record Gobreaker (G W : Type 0) : Type 1 where
  pub new_breaker : Settings → G
  pub execute : {A : Type 0} → G → (W → (GoError ⊎ A) × W) → W → (GoError ⊎ A) × G × W

abbrev pub Registry : Type 0 → Type 0
Registry G = List (String × G)

module _ {G W : Type 0} (gobreaker : Gobreaker G W) where
  -- r.breakers[name] = breaker
  unfoldable pub set_breaker : String → G → Registry G → Registry G
  set_breaker name g [] = (name, g) ∷ []
  set_breaker name g ((n, h) ∷ breakers) =
      if n == name then (n, g) ∷ breakers else (n, h) ∷ set_breaker name g breakers

  unfoldable pub add_breakers : List String → Registry G → Registry G
  add_breakers [] breakers = breakers
  add_breakers (name ∷ names) breakers =
      add_breakers names (set_breaker name (gobreaker.new_breaker (settings_of name)) breakers)

  unfoldable pub new_registry : List String → Registry G
  new_registry services = add_breakers services []

  -- Registry.Execute: a service without a breaker is called as it is.
  unfoldable pub execute :
      {A : Type 0}
      → String
      → (W → (GoError ⊎ A) × W)
      → Registry G
      → W
      → (GoError ⊎ A) × Registry G × W
  execute service fn [] w = let r = fn w in (r.0, [], r.1)
  execute service fn ((n, g) ∷ breakers) w =
      let later = execute service fn breakers w in
      elim (n == service) [
        | true ↦ let r = gobreaker.execute g fn w in (r.0, (n, r.1) ∷ breakers, r.2)
        | false ↦ (later.0, (n, g) ∷ later.1, later.2)
      ]
