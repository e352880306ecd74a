-- ===== src/Handlers/Upstream.antt =====
-- What the handlers and the workers share when they call a service: the identity of a job's user
-- (UserMetadataCtx of internal/queue/result.go) and the circuit breaker (BreakerExecutor of
-- internal/handlers/route.go).
use swayrider_api.Base.{String, List, [], ◌∷◌, ◌⊎◌, inl, inr, ◌≡◌}
use swayrider_api.Grpc.{GoError}
use swayrider_api.Queue.{Job}

-- Outgoing gRPC metadata, in order.
abbrev pub Metadata : Type 0
Metadata = List (String × String)

unfoldable pub user_metadata : Job → Metadata
user_metadata job =
    ("x-user-id", job.user_id)
    ∷ ("x-account-level", job.account_level)
    ∷ ("x-is-admin", job.is_admin)
    ∷ ("x-user-verified", job.user_verified)
    ∷ []

-- Execute, over the state W of the world: the function's error or the breaker's own, or else what
-- the function left behind.
pub record Breaker (W : Type 0) : Type 1 where
  pub execute : {A : Type 0} → String → (W → (GoError ⊎ A) × W) → W → (GoError ⊎ A) × W

-- A closed breaker runs the function, for one service and in one state.
abbrev pub IsClosed : {W : Type 0} → Breaker W → String → W → Type 1
IsClosed {W} breaker name w =
    (A : Type 0) (fn : W → (GoError ⊎ A) × W) → breaker.execute {A = A} name fn w ≡ fn w

-- A call's result, mapped.
abbrev pub map_result : {A B : Type 0} → (A → B) → GoError ⊎ A → GoError ⊎ B
map_result f (inl err) = inl err
map_result f (inr a) = inr (f a)

abbrev pub then_result : {A B : Type 0} → GoError ⊎ A → (A → GoError ⊎ B) → GoError ⊎ B
then_result (inl err) f = inl err
then_result (inr a) f = f a
