-- ===== src/Grpc/Sanitized.antt =====
-- What a client learns of a downstream error.
use swayrider_api.Base.{ℕ, String, ◌≡◌, refl, ◌⊎◌, inl, ◌≤◌, Option, none, some, arith}
use swayrider_api.Grpc.{
  GoError, grpc_err_to_job_error, grpc_status, generic_message, reason_of, err_body,
}

-- The reasons that a password rejection can carry.
abbrev pub KnownReason : Option String → Type 0
KnownReason r =
    (r ≡ none)
    ⊎ (r ≡ some "weak_password")
    ⊎ (r ≡ some "breached_password")
    ⊎ (r ≡ some "password_reused")

reason_of-KnownReason : (m : String) → KnownReason (reason_of m)
unfolding reason_of
reason_of-KnownReason m = ground arith

option_reason-KnownReason :
    (o : Option String)
    → KnownReason (elim o as (λ x. Option String) [ none ↦ none | some m ↦ reason_of m ])
option_reason-KnownReason none = inl refl
option_reason-KnownReason (some m) = reason_of-KnownReason m

-- Two errors with the same code and the same reason give clients the same status, the same body and
-- the same job error, whatever their texts; the reason is one of three constants or missing.
pub err_body-sanitized :
    (code_name : ℕ → String) (e f : GoError)
    → e.code ≡ f.code
    → (err_body code_name e).reason ≡ (err_body code_name f).reason
    → (err_body code_name e ≡ err_body code_name f)
      × (grpc_status (some e) ≡ grpc_status (some f))
      × (grpc_err_to_job_error (some e) ≡ grpc_err_to_job_error (some f))
      × KnownReason (err_body code_name e).reason
unfolding err_body grpc_status grpc_err_to_job_error generic_message
err_body-sanitized code_name e f c r = (
  ground (arith, c, r),
  ground (arith, c),
  ground (arith, c),
  option_reason-KnownReason e.message,
)

-- An error never answers with a success status: every status is 400 or above.
pub grpc_status-error : (e : GoError) → (400 ≤ grpc_status (some e)) × (grpc_status (some e) ≤ 500)
unfolding grpc_status
grpc_status-error e = ground arith
