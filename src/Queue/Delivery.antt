-- ===== src/Queue/Delivery.antt =====
-- A job on its way through the stream, and its result on the way back.
use swayrider_api.Base.{String, ◌≡◌, refl, ◌∙◌, some}
use swayrider_api.Queue.{
  Job, JobResult, StoredResult, Message, Redis, Codec, Processed, job_values, parse_job, str_of,
  process_message, stored_payload, result_key,
}

-- What Redis documents of GET: it reads the last SET of the key, and PUBLISH and XACK leave it.
pub record StoreLaws {S : Type 0} (redis : Redis S) : Type 0 where
  pub get_set : (k v : String) (s : S) → redis.get k (redis.set k v s) ≡ some v
  pub get_publish : (k c v : String) (s : S) → redis.get k (redis.publish c v s) ≡ redis.get k s
  pub get_xack : (k j g i : String) (s : S) → redis.get k (redis.xack j g i s) ≡ redis.get k s

-- encoding/json reads the envelope of a result that encodes back as it was.
pub record CodecLaws (codec : Codec) : Type 0 where
  pub round_trip :
      (user_id : String) (result : JobResult)
      → let st : StoredResult = record {
        user_id = user_id;
        result = codec.marshal_result result;
      } in
        (codec.unmarshal_stored (codec.marshal_stored st) ≡ some st)

-- A worker reads the job that Enqueue wrote, whatever its fields hold, under the assigned ID.
pub parse_job-job_values :
    (job : Job) (id now : String) → parse_job (job_values id job now) ≡ record job { job_id = id }
unfolding parse_job job_values str_of
parse_job-job_values job id now = refl

module _ {S : Type 0} (redis : Redis S) (laws : StoreLaws redis) (codec : Codec)
    (process : Job → Processed) where
  -- After a worker has processed a message, GET of the job's result key is the envelope.
  pub get-process_message :
      (stream : String) (msg : Message) (s : S)
      → let job = parse_job msg.values in
        (redis.get (result_key job.job_id) (process_message codec process redis stream msg s)
          ≡ some (stored_payload codec process job))
  unfolding process_message
  get-process_message stream msg s =
      laws.get_xack _ _ _ _ _ ∙ laws.get_publish _ _ _ _ ∙ laws.get_set _ _ _
