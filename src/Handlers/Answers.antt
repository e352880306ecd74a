-- ===== src/Handlers/Answers.antt =====
-- The answers that internal/handlers share: writeJSON, writeError, and the steps that most handlers
-- begin with (GetJwt and decodeBody) and end with. encoding/json, codes.Code.String and swlib's
-- cookies are the parameter `env`.
pub mod Steps
use swayrider_api.Base.{ℕ, String, Bool, Option, none, some, List, [], ◌∷◌, ◌⊎◌, inl, inr, ℤ}
use swayrider_api.Http.{Headers, Request, Response, Handler, Context, header_set, http_error}
use swayrider_api.Grpc.{GoError, ErrorBody, grpc_status, err_body}
use swayrider_api.Handlers.Stream.{Decoded, decode_body}

-- A value inside a list of objects; `time` is the text of a time.Time.
pub data Cell : Type 0 where
  text : String → Cell
  flag : Bool → Cell
  texts : List String → Cell
  time : String → Cell

-- A value of the maps that are given to writeJSON.
pub data Json : Type 0 where
  string : String → Json
  boolean : Bool → Json
  integer : ℤ → Json
  null : Json
  strings : List String → Json
  groups : List (List String) → Json
  rows : List (List (String × Cell)) → Json

abbrev pub Object : Type 0
Object = List (String × Json)

-- `encode` is json.Encoder.Encode of a map. The cookies are the values of Set-Cookie headers, with
-- SameSite strict: NewServerCookie with NewCookieOptsFromContext, and ClearCookie, for a name, a
-- value and the path where it is set.
pub record Env : Type 0 where
  pub encode : Object → String
  pub code_name : ℕ → String
  pub server_cookie : Context → String → String → Option String → String
  pub clear_cookie : String → Option String → String

-- Header.Add, as http.SetCookie calls it
abbrev pub add_header : Headers → String → String → Headers
add_header hs k v = (k, v) ∷ hs

abbrev pub no_content : Headers → Response
no_content headers = record { status = 204; headers = headers; body = "" }

abbrev pub no_jwt : Response
no_jwt = http_error "unauthorized" 401 []

-- The map of errBody.
unfoldable pub error_object : ErrorBody → Object
error_object b = elim b.reason [
  | none ↦ ("error", string b.error) ∷ ("code", string b.code) ∷ []
  | some reason ↦
      ("error", string b.error) ∷ ("code", string b.code) ∷ ("reason", string reason) ∷ []
]

module _ (env : Env) where
  unfoldable pub write_json : ℕ → Object → Headers → Response
  write_json status v headers = record {
    status = status;
    headers = header_set headers "Content-Type" "application/json";
    body = env.encode v;
  }

  unfoldable pub write_error : GoError → Response
  write_error err =
      write_json (grpc_status (some err)) (error_object (err_body env.code_name err)) []

  -- The end of a handler: the error of the call, or the answer for its result.
  unfoldable pub answer : {A S : Type 0} → (GoError ⊎ A) × S → (A → Response) → Response × S
  answer result ok = elim result.0 [
    | inl err ↦ (write_error err, result.1)
    | inr a ↦ (ok a, result.1)
  ]

module _ {S : Type 0} where
  -- security.GetJwt, with its 401
  unfoldable pub with_token : (String → Handler S) → Handler S
  with_token next r s = elim r.ctx.jwt [ none ↦ (no_jwt, s) | some token ↦ next token r s ]

  -- decodeBody, with the answers that it writes
  unfoldable pub with_body : {A : Type 0} → (Request → Decoded A) → (A → Handler S) → Handler S
  with_body decode next r s = elim (decode_body (decode r) []) [
    | inl refusal ↦ (refusal, s)
    | inr a ↦ next a r s
  ]
