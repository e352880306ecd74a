-- ===== src/Middleware/Access.antt =====
-- internal/middleware/auth.go (RequireUser, RequireVerifiedUser, RequireAdmin) and bodylimit.go. The
-- claims in a context are never the nil pointer: the Auth middleware stores what Verify returned
-- without an error.
pub mod Refusals
use swayrider_api.Base.{Bool, false, not, Option, none, some, [], if◌then◌else◌, ℤ, is_pos}
use swayrider_api.Http.{Request, Response, Handler, Claims, http_error, reply}

abbrev pub unauthorized : Response
unauthorized = http_error "unauthorized" 401 []

abbrev pub forbidden : Response
forbidden = http_error "forbidden" 403 []

abbrev pub forbidden_email : Response
forbidden_email = http_error "forbidden: email not verified" 403 []

-- claims.EmailVerified != nil && *claims.EmailVerified
abbrev pub is_verified : Claims → Bool
is_verified c = elim c.email_verified [ none ↦ false | some v ↦ v ]

abbrev pub is_admin_claims : Claims → Bool
is_admin_claims c = elim c.user [ none ↦ false | some u ↦ u.is_admin ]

module _ {S : Type 0} where
  unfoldable pub require_user : Handler S → Handler S
  require_user next r s = elim r.ctx.claims [ none ↦ reply unauthorized s | some c ↦ next r s ]

  unfoldable pub require_verified_user : Handler S → Handler S
  require_verified_user next r s = elim r.ctx.claims [
    | none ↦ reply unauthorized s
    | some c ↦ if not (is_verified c) then reply forbidden_email s else next r s
  ]

  unfoldable pub require_admin : Handler S → Handler S
  require_admin next r s = elim r.ctx.claims [
    | none ↦ reply unauthorized s
    | some c ↦ if not (is_admin_claims c) then reply forbidden s else next r s
  ]

  -- BodyLimitWith: the override's limit for the request, or the general one.
  unfoldable pub body_limit_with : ℤ → (Request → Option ℤ) → Handler S → Handler S
  body_limit_with max_bytes override next r s =
      let limit : ℤ = elim (override r) [ none ↦ max_bytes | some l ↦ l ] in
      if is_pos limit then next (record r { body_limit = some limit }) s else next r s
