-- ===== src/Sse/Subscription.antt =====
-- internal/sse/hub.go and internal/queue/worker.go: WaitForResult and the worker of its job, in any
-- order of their steps. go-redis sends SUBSCRIBE without waiting for the reply, so the server
-- activates the subscription at some later time, before or after it answers GET. Messages come on the
-- job's channel from its worker only.
pub mod Left
pub mod Delivered
use swayrider_api.Base.{
  String, ◌≡◌, Bool, true, false, not, Option, none, some, List, [], ◌∷◌, ◌++◌, if◌then◌else◌,
}
use swayrider_api.Queue.{Job, Redis, Codec, Processed, stored_payload, result_key, done_channel}
use swayrider_api.Sse.{Event, timeout_event, delivery}

-- Where WaitForResult is: before GET, in the select, or at its end, with the events that it wrote.
pub data Phase : Type 0 where
  asking : Phase
  waiting : Phase
  ended : List Event → Phase

-- Where processMessage is, once the job's function has returned.
pub data Duty : Type 0 where
  to_set : Duty
  to_publish : Duty
  finished : Duty

-- The server, whether the subscription is active, what the channel received, and the two programs.
-- `ready` tells whether the subscription was active when GET ran, `missed` whether PUBLISH came
-- before it was.
pub record Race (S : Type 0) : Type 0 where
  pub server : S
  pub active : Bool
  pub inbox : List String
  pub request : Phase
  pub worker : Duty
  pub ready : Bool
  pub missed : Bool

-- After GET of the result's key
abbrev pub looked : Codec → String → Option String → Phase
looked codec user none = waiting
looked codec user (some existing) = ended (delivery codec existing user ∷ [])

abbrev pub start : {S : Type 0} → S → Race S
start s = record {
  server = s;
  active = false;
  inbox = [];
  request = asking;
  worker = to_set;
  ready = false;
  missed = false;
}

module _ {S : Type 0} (redis : Redis S) (codec : Codec) (process : Job → Processed) (job : Job)
    (user : String) where
  -- What the worker of the job stores and publishes
  abbrev pub payload : String
  payload = stored_payload codec process job

  pub data Step : Race S → Race S → Type 0 where
    activate : (r : Race S) → Step r (record r { active = true })
    look :
        (r : Race S)
        → r.request ≡ asking
        → Step r (record r {
          request = looked codec user (redis.get (result_key job.job_id) r.server);
          ready = r.active;
        })
    set :
        (r : Race S)
        → r.worker ≡ to_set
        → Step r (record r {
          server = redis.set (result_key job.job_id) payload r.server;
          worker = to_publish;
        })
    publish :
        (r : Race S)
        → r.worker ≡ to_publish
        → Step r (record r {
          server = redis.publish (done_channel job.job_id) payload r.server;
          worker = finished;
          inbox = if r.active then r.inbox ++ payload ∷ [] else r.inbox;
          missed = not r.active;
        })
    receive :
        (r : Race S) (message : String) (rest : List String)
        → r.request ≡ waiting
        → r.inbox ≡ message ∷ rest
        → Step r (record r { request = ended (delivery codec message user ∷ []) })
    time_out :
        (r : Race S)
        → r.request ≡ waiting
        → Step r (record r { request = ended (timeout_event ∷ []) })
    cancel : (r : Race S) → r.request ≡ waiting → Step r (record r { request = ended [] })
    -- other clients of the server, which leave the job's key
    others :
        (r : Race S) (s : S)
        → redis.get (result_key job.job_id) s ≡ redis.get (result_key job.job_id) r.server
        → Step r (record r { server = s })

  pub data Reach (s : S) : Race S → Type 0 where
    started : Reach s (start s)
    later : {r q : Race S} → Reach s r → Step r q → Reach s q
