-- ===== src/Examples/Races.antt =====
-- A request that waits for a job, and the job's worker, in one order of their steps (internal/sse).
use swayrider_api.Base.{◌≡◌, refl, ◌⊎◌, true, false, [], ◌∷◌}
use swayrider_api.Queue.{Job, stored_payload, result_key}
use swayrider_api.Sse.Subscription.{
  Race, Reach, started, later, waiting, finished, activate, look, set, publish,
}
use swayrider_api.Sse.Subscription.Delivered.{finished-Outcome}
use swayrider_api.Examples.Jobs.{Server, server, server-Store, empty, codec, codec-Laws, process}

abbrev job : Job
job = record {
  job_id = "j1";
  payload = "xy";
  user_id = "ann";
  account_level = "";
  is_admin = "false";
  user_verified = "true";
}

-- The subscription is active, the request has looked, and the worker is done.
abbrev raced : Race Server
raced = record {
  server =
      server.publish "sw:done:j1" (stored_payload codec process job)
        (server.set (result_key "j1") (stored_payload codec process job) empty);
  active = true;
  inbox = stored_payload codec process job ∷ [];
  request = waiting;
  worker = finished;
  ready = true;
  missed = false;
}

raced-Reach : Reach server codec process job "ann" empty raced
raced-Reach =
    later (later (later (later started (activate _)) (look _ refl)) (set _ refl)) (publish _ refl)

finished-Outcome_example :
    (raced.inbox ≡ stored_payload codec process job ∷ [])
    ⊎ (raced.ready ≡ false) × (raced.missed ≡ true)
finished-Outcome_example =
    finished-Outcome server server-Store codec process job "ann" codec-Laws refl empty refl raced
      raced-Reach refl
