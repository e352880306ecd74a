-- ===== src/Sse/Ownership.antt =====
-- internal/sse/hub.go: results and the users that they are sent to.
use swayrider_api.Base.{
  String, ◌≡◌, refl, ap, true, none, some, [], ◌∷◌, ◌==◌, if◌then◌else◌, arith,
}
use swayrider_api.Queue.{
  Job, Message, Redis, Codec, Processed, parse_job, process_message, stored_payload, job_result,
  result_key,
}
use swayrider_api.Queue.Delivery.{StoreLaws, CodecLaws, get-process_message}
use swayrider_api.Sse.{
  Event, Signal, published, not_found_event, result_for_user, delivery, wait_for_result,
}

module _ (codec : Codec) where
  result_for_user-stored :
      CodecLaws codec
      → (process : Job → Processed) (job : Job) (user : String)
      → result_for_user codec (stored_payload codec process job) user ≡ (
          if job.user_id == user
          then some (codec.marshal_result (job_result (process job)))
          else none)
  unfolding result_for_user stored_payload
  result_for_user-stored laws process job user =
      rw (result_for_user, laws.round_trip job.user_id (job_result (process job))) refl

  -- A worker's result for a job, delivered to a user: the result itself where the user submitted the
  -- job, and otherwise the same event as for a payload that is not JSON at all.
  pub delivery-stored :
      CodecLaws codec
      → (process : Job → Processed) (job : Job) (user : String)
      → delivery codec (stored_payload codec process job) user ≡ (
          if job.user_id == user
          then ("result", codec.marshal_result (job_result (process job)))
          else not_found_event)
  unfolding delivery
  delivery-stored laws process job user =
      rw (delivery, result_for_user-stored laws process job user) (ground arith)

  module _ {S : Type 0} (redis : Redis S) where
    pub wait_for_result-stored :
        StoreLaws redis
        → CodecLaws codec
        → (process : Job → Processed) (stream : String) (msg : Message) (s : S) (user : String)
          (signal : Signal)
        → let job = parse_job msg.values in
          (wait_for_result codec redis true
              (process_message codec process redis stream msg s)
              job.job_id
              user
              signal
            ≡ (if job.user_id == user
                then ("result", codec.marshal_result (job_result (process job)))
                else not_found_event)
              ∷ [])
    unfolding wait_for_result
    wait_for_result-stored store laws process stream msg s user signal =
        let shown =
          ap (λ (e : Event). e ∷ []) (delivery-stored laws process (parse_job msg.values) user) in
        rw (get-process_message redis store codec process stream msg s) shown

    -- After a worker has processed a message, a request for the message's job by any user, through the
    -- stored result or through the published one, gets the one event.
    wait_for_result-process_message :
        StoreLaws redis
        → CodecLaws codec
        → (process : Job → Processed) (stream : String) (msg : Message) (s t : S) (user : String)
          (signal : Signal)
        → redis.get (result_key (parse_job msg.values).job_id) t ≡ none
        → let job = parse_job msg.values in
          let sent = stored_payload codec process job in
          let event =
            if job.user_id == user
            then ("result", codec.marshal_result (job_result (process job)))
            else not_found_event in
          ((wait_for_result codec redis true
                (process_message codec process redis stream msg s)
                job.job_id
                user
                signal
              ≡ event ∷ [])
            × (wait_for_result codec redis true t job.job_id user (published sent) ≡ event ∷ []))
    unfolding wait_for_result
    wait_for_result-process_message store laws process stream msg s t user signal n =
        let job = parse_job msg.values in
        let shown = ap (λ (e : Event). e ∷ []) (delivery-stored laws process job user) in
        (wait_for_result-stored store laws process stream msg s user signal, rw n shown)
