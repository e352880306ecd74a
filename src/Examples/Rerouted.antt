-- ===== src/Examples/Rerouted.antt =====
-- A reroute from its request to its result, with a worker of the rerouting stream (internal/handlers).
use swayrider_api.Queue.{Job, Values, Processed, job_values, process_message, stream_rerouting}
use swayrider_api.Handlers.Stream.{Run, job_of}
use swayrider_api.Handlers.Reroute.Delivered.{rerouting}
use swayrider_api.Examples.Jobs.{Server, server, codec, claims, empty, run}
use swayrider_api.Examples.Reroutes.{print_time, route_codec, router, breaker}

abbrev worker : Job → Processed
worker = rerouting route_codec print_time router "t1" breaker 0

abbrev values : Values
values = job_values "j1" (job_of claims "{}") "0"

-- The run in which a worker of the rerouting stream takes the job
abbrev worked : Run Server
worked = record run {
  meanwhile =
      process_message codec worker server stream_rerouting (record { id = "1-0"; values = values });
}

abbrev entered : Server
entered = (server.xadd stream_rerouting values empty).1
