-- ===== src/Queue.antt =====
-- internal/queue: the jobs (result.go), the producer (stream.go) and the worker (worker.go). The
-- Redis client and encoding/json are parameters. The goroutines of the workers are in Pool.
pub mod Depth
pub mod Delivery
pub mod Results
pub mod Pool
use swayrider_api.Base.{
  ℕ, String, append, Bool, true, false, Option, none, some, List, [], ◌∷◌, ◌==◌, if◌then◌else◌, leb,
  ℤ, pos, negsuc,
}
use swayrider_api.Grpc.{GoError, JobError, grpc_err_to_job_error}

abbrev pub stream_routing : String
stream_routing = "sw:jobs:routing"

abbrev pub stream_search : String
stream_search = "sw:jobs:search"

abbrev pub stream_rerouting : String
stream_rerouting = "sw:jobs:rerouting"

abbrev pub group_name : String
group_name = "workers"

pub record Job : Type 0 where
  pub job_id : String
  pub payload : String
  pub user_id : String
  pub account_level : String
  pub is_admin : String
  pub user_verified : String

-- A json.RawMessage is its text; none is nil.
pub record JobResult : Type 0 where
  pub success : Bool
  pub data_json : Option String
  pub error : Option JobError

pub record StoredResult : Type 0 where
  pub user_id : String
  pub result : String

-- A value of a stream message: a string, or anything else, with what fmt's %v prints for it.
pub data Value : Type 0 where
  text : String → Value
  other : String → Value

abbrev pub Values : Type 0
Values = List (String × Value)

-- str(values[key]); fmt prints the nil of a missing key as <nil>.
unfoldable pub str_of : Values → String → String
str_of [] key = "<nil>"
str_of ((k, text s) ∷ values) key = if k == key then s else str_of values key
str_of ((k, other s) ∷ values) key = if k == key then s else str_of values key

unfoldable pub parse_job : Values → Job
parse_job values = record {
  job_id = str_of values "job_id";
  payload = str_of values "payload";
  user_id = str_of values "user_id";
  account_level = str_of values "account_level";
  is_admin = str_of values "is_admin";
  user_verified = str_of values "user_verified";
}

-- The commands that the queue and the hub send; S is the server's state. `xlen` and `get` are none
-- for an error, a missing key included; the flag of `xadd` is true for a reply without an error.
pub record Redis (S : Type 0) : Type 0 where
  pub xlen : String → S → Option ℕ
  pub xadd : String → Values → S → Bool × S
  pub xack : String → String → String → S → S
  pub set : String → String → S → S
  pub get : String → S → Option String
  pub publish : String → String → S → S

-- encoding/json on the types that the queue stores; `unmarshal` is none for an error.
pub record Codec : Type 0 where
  pub marshal_result : JobResult → String
  pub marshal_stored : StoredResult → String
  pub unmarshal_stored : String → Option StoredResult

pub data Enqueued : Type 0 where
  added : String → Enqueued
  queue_full : Enqueued
  redis_error : Enqueued

-- depth >= maxDepth
unfoldable pub is_full : ℕ → ℤ → Bool
is_full depth (pos max_depth) = leb max_depth depth
is_full depth (negsuc n) = true

-- The fields of XAdd; `enqueued_at` is the time, printed.
unfoldable pub job_values : String → Job → String → Values
job_values job_id job enqueued_at =
    ("job_id", text job_id)
    ∷ ("payload", text job.payload)
    ∷ ("user_id", text job.user_id)
    ∷ ("account_level", text job.account_level)
    ∷ ("is_admin", text job.is_admin)
    ∷ ("user_verified", text job.user_verified)
    ∷ ("enqueued_at", text enqueued_at)
    ∷ []

-- The message of a stream: its ID and its values.
pub record Message : Type 0 where
  pub id : String
  pub values : Values

module _ {S : Type 0} (redis : Redis S) where
  -- The first half of Enqueue, up to its early returns: the refusal, none where the job may be added.
  unfoldable pub check_depth : ℤ → String → S → Option Enqueued
  check_depth max_depth stream s = elim (redis.xlen stream s) [
    | none ↦ some redis_error
    | some depth ↦ if is_full depth max_depth then some queue_full else none
  ]

  -- Its second half
  unfoldable pub add_job : String → Job → String → String → S → Enqueued × S
  add_job stream job job_id enqueued_at s =
      let r = redis.xadd stream (job_values job_id job enqueued_at) s in
      (if r.0 then added job_id else redis_error, r.1)

  -- Producer.Enqueue, where no other client of Redis comes between its two calls; `job_id` is the new
  -- UUID. `Depth` has the two calls as separate steps.
  unfoldable pub enqueue : ℤ → String → Job → String → String → S → Enqueued × S
  enqueue max_depth stream job job_id enqueued_at s = elim (check_depth max_depth stream s) [
    | some refusal ↦ (refusal, s)
    | none ↦ add_job stream job job_id enqueued_at s
  ]

  -- Producer.QueueDepth
  unfoldable pub queue_depth : String → S → Option ℕ
  queue_depth stream s = redis.xlen stream s

-- Producer.Bootstrap; `create_group` is XGROUP CREATE from "0" with MKSTREAM, for a stream and a group.
unfoldable pub bootstrap : {S : Type 0} → (String → String → S → S) → S → S
bootstrap create_group s =
    create_group stream_rerouting group_name
      (create_group stream_search group_name (create_group stream_routing group_name s))

abbrev pub result_key : String → String
result_key job_id = append "sw:result:" job_id

abbrev pub done_channel : String → String
done_channel job_id = append "sw:done:" job_id

-- What a ProcessFn returns: the result's JSON, or an error.
pub data Processed : Type 0 where
  done : String → Processed
  failed : GoError → Processed

unfoldable pub job_result : Processed → JobResult
job_result (done json) = record { success = true; data_json = some json; error = none }
job_result (failed err) = record {
  success = false;
  data_json = none;
  error = grpc_err_to_job_error (some err);
}

module _ (codec : Codec) (process : Job → Processed) where
  -- payloadStr: the envelope that is stored and published for a job.
  unfoldable pub stored_payload : Job → String
  stored_payload job =
      codec.marshal_stored
        (record { user_id = job.user_id; result = codec.marshal_result (job_result (process job)) })

  module _ {S : Type 0} (redis : Redis S) where
    -- The deferred XAck runs last. A stored result does not expire here, and SET and PUBLISH, whose errors
    -- the worker ignores, do not fail; marshal_result and marshal_stored stand for values that encode.
    unfoldable pub process_message : String → Message → S → S
    process_message stream msg s =
        let job = parse_job msg.values in
        let payload = stored_payload job in
        redis.xack stream group_name msg.id (
          redis.publish (done_channel job.job_id) payload
            (redis.set (result_key job.job_id) payload s))
