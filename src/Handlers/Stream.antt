-- ===== src/Handlers/Stream.antt =====
-- The submission of a job: decodeBody (internal/handlers/auth.go), Route and streamJob
-- (internal/handlers/route.go), and Search and ReverseGeocode with enqueueAndStream
-- (internal/handlers/search.go). The decoding and encoding of JSON, the verbs of fmt and the new
-- UUID are parameters.
pub mod Delivered
pub mod Search
use swayrider_api.Base.{
  ℕ, String, append, ◌⊎◌, inl, inr, Bool, true, false, Option, none, some, List, [], ◌∷◌, ◌==◌,
  if◌then◌else◌, is_some, ℤ,
}
use swayrider_api.Http.{Headers, header_set, Claims, Request, Response, http_error}
use swayrider_api.Queue.{
  Job, Redis, Codec, Enqueued, added, queue_full, redis_error, enqueue, queue_depth, stream_routing,
  stream_search,
}
use swayrider_api.Sse.{Event, Signal, write_sse_event, wait_for_result}

-- json.Decoder.Decode: a value, the error of a body over the limit, or another error.
pub data Decoded (A : Type 0) : Type 0 where
  decoded : A → Decoded A
  too_large : Decoded A
  malformed : Decoded A

-- decodeBody: the answer that is already written, or the value.
unfoldable pub decode_body : {A : Type 0} → Decoded A → Headers → Response ⊎ A
decode_body (decoded a) headers = inr a
decode_body too_large headers = inl (http_error "request body too large" 413 headers)
decode_body malformed headers = inl (http_error "invalid request body" 400 headers)

-- fmt.Sprintf("%t", b)
abbrev pub print_bool : Bool → String
print_bool true = "true"
print_bool false = "false"

-- The job of a request: its fields come from the claims, its ID is assigned by Enqueue.
unfoldable pub job_of : Claims → String → Job
job_of claims payload = record {
  job_id = "";
  payload = payload;
  user_id = claims.subject;
  account_level = elim claims.user [ none ↦ "" | some u ↦ u.account_level ];
  is_admin = print_bool (elim claims.user [ none ↦ false | some u ↦ u.is_admin ]);
  user_verified = print_bool (elim claims.email_verified [ none ↦ false | some v ↦ v ]);
}

unfoldable pub write_events : List Event → String
write_events [] = ""
write_events (e ∷ es) = append (write_sse_event e) (write_events es)

-- One request's surroundings: the new job ID, the time, whether the writer is a Flusher, what the
-- other clients of Redis do before the hub's GET, and what the hub's select takes first. `quote` is
-- the verb %q and `print` the verb %d.
pub record Run (S : Type 0) : Type 0 where
  pub job_id : String
  pub now : String
  pub flushes : Bool
  pub meanwhile : S → S
  pub signal : Signal
  pub quote : String → String
  pub print : ℕ → String

module _ {S : Type 0} (redis : Redis S) (codec : Codec) (max_depth : ℤ) (run : Run S) where
  unfoldable pub queued_event : Option ℕ → Event
  queued_event depth = (
    "queued",
    append "{\"job_id\":" (
        append (run.quote run.job_id) (
          append ",\"queue_position\":"
            (append (run.print (elim depth [ none ↦ 0 | some d ↦ d ])) "}"))),
  )

  abbrev pub stream_headers : Headers → Headers
  stream_headers headers =
      header_set
        (header_set (header_set headers "Content-Type" "text/event-stream") "Cache-Control"
          "no-cache")
        "X-Accel-Buffering" "no"

  -- The answer after Enqueue, from its result and the server's state. `headers` are those set so far.
  unfoldable pub after_enqueue : String → Claims → Headers → Enqueued → S → Response × S
  after_enqueue stream claims headers queue_full s =
      (http_error "queue full" 429 (header_set headers "Retry-After" "30"), s)
  after_enqueue stream claims headers redis_error s = (http_error "internal error" 500 headers, s)
  after_enqueue stream claims headers (added job_id) s =
      let later = run.meanwhile s in
      let events =
        queued_event (queue_depth redis stream s)
        ∷ wait_for_result codec redis run.flushes later job_id claims.subject run.signal in
      (record { status = 200; headers = stream_headers headers; body = write_events events }, later)

  -- streamJob; `payload` is json.Marshal of the request's body, none for an error.
  unfoldable pub stream_job : String → Option String → Claims → Headers → S → Response × S
  stream_job stream none claims headers s = (http_error "internal error" 500 headers, s)
  stream_job stream (some payload) claims headers s =
      let r = enqueue redis max_depth stream (job_of claims payload) run.job_id run.now s in
      after_enqueue stream claims headers r.0 r.1

  -- RouteHandler.Route; `decode` reads the body and `marshal` writes it again.
  unfoldable pub route :
      {A : Type 0}
      → (Request → Decoded A)
      → (A → Option String)
      → Request
      → Headers
      → S
      → Response × S
  route decode marshal r headers s = elim r.ctx.claims [
    | none ↦ (http_error "unauthorized" 401 headers, s)
    | some claims ↦ elim (decode_body (decode r) headers) [
      | inl refusal ↦ (refusal, s)
      | inr a ↦ stream_job stream_routing (marshal a) claims headers s
    ]
  ]

  -- SearchHandler.enqueueAndStream (internal/handlers/search.go); `payload` is what buildPayload
  -- returns.
  unfoldable pub enqueue_and_stream : String → Decoded String → Request → Headers → S → Response × S
  enqueue_and_stream stream payload r headers s = elim r.ctx.claims [
    | none ↦ (http_error "unauthorized" 401 headers, s)
    | some claims ↦ elim payload [
      | too_large ↦ (http_error "request body too large" 413 headers, s)
      | malformed ↦ (http_error "invalid request body" 400 headers, s)
      | decoded text ↦
          let e = enqueue redis max_depth stream (job_of claims text) run.job_id run.now s in
          after_enqueue stream claims headers e.0 e.1
    ]
  ]

  -- SearchHandler.Search and ReverseGeocode; `build` decodes the body and marshals it with its kind.
  unfoldable pub search : (Request → Decoded String) → Request → Headers → S → Response × S
  search build r headers s = enqueue_and_stream stream_search (build r) r headers s
