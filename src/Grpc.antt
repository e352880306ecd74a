-- ===== src/Grpc.antt =====
-- Errors of gRPC calls, as google.golang.org/grpc/status reads them, and the answers that
-- internal/queue/result.go and internal/handlers/auth.go make of them.
pub mod Code
pub mod Sanitized
use Code
use swayrider_api.Base.{
  ℕ, String, Bool, true, false, Option, none, some, List, [], ◌∷◌, ◌==◌, if◌then◌else◌, eqb,
  has_prefix,
}

-- A non-nil Go error: status.Code(err), the message of status.FromError(err) where it has a status,
-- and err.Error().
pub record GoError : Type 0 where
  pub code : ℕ
  pub message : Option String
  pub text : String

pub record JobError : Type 0 where
  pub code : ℕ
  pub message : String

unfoldable pub job_error_message : ℕ → String
job_error_message code =
    if eqb code Code.not_found
    then "not found"
    else if eqb code Code.invalid_argument
    then "invalid argument"
    else if eqb code Code.unavailable
    then "service unavailable"
    else if eqb code Code.deadline_exceeded
    then "deadline exceeded"
    else if eqb code Code.permission_denied
    then "permission denied"
    else if eqb code Code.unauthenticated
    then "unauthenticated"
    else "internal error"

-- none is Go's nil.
unfoldable pub grpc_err_to_job_error : Option GoError → Option JobError
grpc_err_to_job_error none = none
grpc_err_to_job_error (some err) =
    some (record { code = err.code; message = job_error_message err.code })

unfoldable pub grpc_status : Option GoError → ℕ
grpc_status none = 200
grpc_status (some err) =
    if eqb err.code Code.not_found
    then 404
    else if eqb err.code Code.already_exists
    then 409
    else if eqb err.code Code.permission_denied
    then 403
    else if eqb err.code Code.unauthenticated
    then 401
    else if eqb err.code Code.invalid_argument
    then 400
    else if eqb err.code Code.resource_exhausted
    then 429
    else if eqb err.code Code.failed_precondition
    then 409
    else 500

unfoldable pub generic_message : GoError → String
generic_message err =
    if eqb err.code Code.not_found
    then "not found"
    else if eqb err.code Code.already_exists
    then "already exists"
    else if eqb err.code Code.permission_denied
    then "permission denied"
    else if eqb err.code Code.unauthenticated
    then "unauthenticated"
    else if eqb err.code Code.invalid_argument
    then "invalid argument"
    else if eqb err.code Code.resource_exhausted
    then "resource exhausted"
    else if eqb err.code Code.failed_precondition
    then "failed precondition"
    else "internal error"

unfoldable pub reason_of : String → Option String
reason_of message =
    if has_prefix message "password is too weak"
    then some "weak_password"
    else if has_prefix message "password has appeared in a known data breach"
    then some "breached_password"
    else if has_prefix message "password has been used before"
    then some "password_reused"
    else none

-- The JSON object of errBody; `code_name` is codes.Code.String.
pub record ErrorBody : Type 0 where
  pub error : String
  pub code : String
  pub reason : Option String

unfoldable pub err_body : (ℕ → String) → GoError → ErrorBody
err_body code_name err = record {
  error = generic_message err;
  code = code_name err.code;
  reason = elim err.message [ none ↦ none | some m ↦ reason_of m ];
}
