-- ===== src/Handlers/Stream/Search.antt =====
-- The two copies of the submission: streamJob and the search handlers' enqueueAndStream.
use swayrider_api.Base.{String, ◌≡◌, refl, inl, inr, none, some, ℤ, Option-cases}
use swayrider_api.Http.{Headers, Request, Response, http_error}
use swayrider_api.Queue.{Redis, Codec}
use swayrider_api.Handlers.Stream.{
  Run, Decoded, decoded, too_large, malformed, decode_body, stream_job, enqueue_and_stream,
}

module _ {S : Type 0} (redis : Redis S) (codec : Codec) (max_depth : ℤ) (run : Run S) where
  -- The search handlers answer a request as decodeBody and streamJob answer it: without claims 401,
  -- then the refusal of the body, and else as streamJob does for the payload, the same job included.
  enqueue_and_stream_lem :
      (stream : String) (payload : Decoded String) (r : Request) (headers : Headers) (s : S)
      → enqueue_and_stream redis codec max_depth run stream payload r headers s
        ≡ elim r.ctx.claims as (λ c. Response × S) [
          | none ↦ (http_error "unauthorized" 401 headers, s)
          | some claims ↦ elim (decode_body payload headers) as (λ b. Response × S) [
            | inl refusal ↦ (refusal, s)
            | inr text ↦ stream_job redis codec max_depth run stream (some text) claims headers s
          ]
        ]
  unfolding enqueue_and_stream decode_body stream_job
  enqueue_and_stream_lem stream (decoded text) r headers s = elim (Option-cases r.ctx.claims) [
    | inl n ↦ rw n refl
    | inr (claims, x) ↦ rw x refl
  ]
  enqueue_and_stream_lem stream too_large r headers s = elim (Option-cases r.ctx.claims) [
    | inl n ↦ rw n refl
    | inr (claims, x) ↦ rw x refl
  ]
  enqueue_and_stream_lem stream malformed r headers s = elim (Option-cases r.ctx.claims) [
    | inl n ↦ rw n refl
    | inr (claims, x) ↦ rw x refl
  ]
