-- ===== src/Sse.antt =====
-- internal/sse/hub.go: the delivery of a job's result to the request that waits for it.
pub mod Ownership
pub mod Subscription
use swayrider_api.Base.{
  String, append, Bool, true, false, not, Option, none, some, List, [], ◌∷◌, ◌==◌, if◌then◌else◌,
}
use swayrider_api.Queue.{Redis, Codec, StoredResult, result_key}

-- An event of the stream: its name and its data.
abbrev pub Event : Type 0
Event = String × String

abbrev pub not_found_event : Event
not_found_event = ("error", "{\"code\":5,\"message\":\"not found\"}")

abbrev pub timeout_event : Event
timeout_event = ("error", "{\"code\":4,\"message\":\"timeout\"}")

abbrev pub unsupported_event : Event
unsupported_event = ("error", "{\"code\":13,\"message\":\"streaming not supported\"}")

-- What the select of WaitForResult takes first: a message of the channel, the timer, or the end of
-- the request's context.
pub data Signal : Type 0 where
  published : String → Signal
  timed_out : Signal
  cancelled : Signal

unfoldable pub write_sse_event : Event → String
write_sse_event (event, json) =
    append "event: " (append event (append "\ndata: " (append json "\n\n")))

module _ (codec : Codec) where
  unfoldable pub result_for_user : String → String → Option String
  result_for_user payload user_id = elim (codec.unmarshal_stored payload) [
    | none ↦ none
    | some st ↦ if st.user_id == user_id then some st.result else none
  ]

  unfoldable pub delivery : String → String → Event
  delivery payload user_id = elim (result_for_user payload user_id) [
    | some result ↦ ("result", result)
    | none ↦ not_found_event
  ]

  module _ {S : Type 0} (redis : Redis S) where
    -- The events that WaitForResult writes. `flushes` tells whether the writer is a Flusher, `s` is
    -- the server's state when GET runs, after the subscription.
    unfoldable pub wait_for_result : Bool → S → String → String → Signal → List Event
    wait_for_result flushes s job_id user_id signal =
        if not flushes then unsupported_event ∷ [] else elim (redis.get (result_key job_id) s) [
          | some existing ↦ delivery existing user_id ∷ []
          | none ↦ elim signal [
            | published payload ↦ delivery payload user_id ∷ []
            | timed_out ↦ timeout_event ∷ []
            | cancelled ↦ []
          ]
        ]
