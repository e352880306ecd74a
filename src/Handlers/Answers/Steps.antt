-- ===== src/Handlers/Answers/Steps.antt =====
-- The outcomes of the steps that the handlers share.
use swayrider_api.Base.{
  ℕ, String, ◌≡◌, refl, ◌⊎◌, inl, inr, ◌≤◌, none, some, [], arith, Option-cases,
}
use swayrider_api.Http.{
  Request, Response, Handler, header_values, header_set, header_del, http_error,
}
use swayrider_api.Grpc.{GoError}
use swayrider_api.Grpc.Sanitized.{grpc_status-error}
use swayrider_api.Handlers.Stream.{Decoded, decoded, too_large, malformed, decode_body}
use swayrider_api.Handlers.Answers.{
  Env, no_jwt, with_token, with_body, answer, write_json, write_error,
}

-- An answer that a client takes for an error, and that leaves its cookies alone.
abbrev pub IsFailure : Response → Type 0
IsFailure a = (400 ≤ a.status) × (header_values a.headers "Set-Cookie" ≡ [])

pub http_error-IsFailure :
    (text : String) (status : ℕ) → 400 ≤ status → IsFailure (http_error text status [])
unfolding http_error header_set header_del header_values
http_error-IsFailure text status h = (h, refl)

module _ (env : Env) where
  pub write_error-IsFailure : (e : GoError) → IsFailure (write_error env e)
  unfolding write_error write_json header_set header_del header_values
  write_error-IsFailure e = ((grpc_status-error e).0, refl)

  pub answer-cases :
      {A S : Type 0} (result : (GoError ⊎ A) × S) (ok : A → Response)
      → ((a : A) × (result.0 ≡ inr a) × (answer env result ok ≡ (ok a, result.1)))
        ⊎ ((e : GoError) × (result.0 ≡ inl e)
            × (answer env result ok ≡ (write_error env e, result.1)))
  unfolding answer
  answer-cases (inl e, s) ok = inr (e, refl, refl)
  answer-cases (inr a, s) ok = inl (a, refl, refl)

Decoded-cases :
    {A : Type 0} (d : Decoded A)
    → ((a : A) × (d ≡ decoded a))
      ⊎ ((refusal : Response) × (decode_body d [] ≡ inl refusal) × IsFailure refusal)
unfolding decode_body
Decoded-cases (decoded a) = inl (a, refl)
Decoded-cases too_large = inr (_, refl, http_error-IsFailure _ 413 (omega arith))
Decoded-cases malformed = inr (_, refl, http_error-IsFailure _ 400 (omega arith))

module _ {S : Type 0} where
  pub with_token-none :
      (next : String → Handler S) (r : Request) (s : S)
      → r.ctx.jwt ≡ none
      → with_token next r s ≡ (no_jwt, s)
  unfolding with_token
  with_token-none next r s e = rw e refl

  pub with_token-cases :
      (next : String → Handler S) (r : Request) (s : S)
      → ((token : String) × (r.ctx.jwt ≡ some token) × (with_token next r s ≡ next token r s))
        ⊎ (with_token next r s ≡ (no_jwt, s))
  unfolding with_token
  with_token-cases next r s = elim (Option-cases r.ctx.jwt) [
    | inl e ↦ inr (rw e refl)
    | inr (t, e) ↦ inl (t, e, rw e refl)
  ]

  pub with_body-cases :
      {A : Type 0} (decode : Request → Decoded A) (next : A → Handler S) (r : Request) (s : S)
      → ((a : A) × (decode r ≡ decoded a) × (with_body decode next r s ≡ next a r s))
        ⊎ ((refusal : Response) × (with_body decode next r s ≡ (refusal, s)) × IsFailure refusal)
  unfolding with_body decode_body
  with_body-cases decode next r s = elim (Decoded-cases (decode r)) [
    | inl (a, e) ↦ inl (a, e, rw (with_body, e) refl)
    | inr (refusal, e, bad) ↦ inr (refusal, rw (with_body, e) refl, bad)
  ]
