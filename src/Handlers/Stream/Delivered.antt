-- ===== src/Handlers/Stream/Delivered.antt =====
-- internal/handlers/route.go, internal/queue and internal/sse together: from the submission of a
-- job to its result.
use swayrider_api.Base.{
  ℕ, String, ◌≡◌, Bool, true, false, Option, none, some, [], ◌∷◌, pos, if◌then◌else◌,
}
use swayrider_api.Http.{Headers, Claims, UserClaims}
use swayrider_api.Queue.{
  Job, Redis, Codec, Processed, job_values, process_message, job_result, queue_depth,
}
use swayrider_api.Handlers.Stream.{Run, queued_event, stream_job, write_events}

-- The level and the flags of a user's claims, as texts.
abbrev pub level_of : Option UserClaims → String
level_of none = ""
level_of (some u) = u.account_level

abbrev pub admin_flag : Option UserClaims → String
admin_flag none = "false"
admin_flag (some u) = if u.is_admin then "true" else "false"

abbrev pub verified_flag : Option Bool → String
verified_flag (some true) = "true"
verified_flag (some false) = "false"
verified_flag none = "false"

-- The job that a worker has to see, for an ID, the claims of the request and its payload.
abbrev pub sent : String → Claims → String → Job
sent job_id claims payload = record {
  job_id = job_id;
  payload = payload;
  user_id = claims.subject;
  account_level = level_of claims.user;
  is_admin = admin_flag claims.user;
  user_verified = verified_flag claims.email_verified;
}

module _ {S : Type 0} (redis : Redis S) (codec : Codec) (process : Job → Processed) (m : ℕ)
    (run : Run S) where
  -- What `stream_job-delivered_of` says of a worker's job
  abbrev Delivered : String → String → String → Claims → Headers → S → ℕ → Job → Type 0
  Delivered stream payload entry claims headers s d job =
      let values = job_values run.job_id job run.now in
      let added_state = (redis.xadd stream values s).1 in
      let answer = (stream_job redis codec (pos m) run stream (some payload) claims headers s).0 in
      (redis.xadd stream values s).0 ≡ true
      → run.meanwhile added_state
        ≡ process_message codec process redis stream (record { id = entry; values = values })
            added_state
      → (answer.status ≡ 200)
        × (answer.body
            ≡ write_events (
                queued_event redis codec (pos m) run (queue_depth redis stream added_state)
                ∷ ("result", codec.marshal_result (job_result (process job)))
                ∷ []))
