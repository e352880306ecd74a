-- ===== src/Middleware/Access/Refusals.antt =====
-- The callers that RequireAdmin and RequireVerifiedUser (internal/middleware/auth.go) refuse.
use swayrider_api.Base.{◌≡◌, refl, ◌⊎◌, inl, inr, Bool, false, Option, none, some, Option-cases}
use swayrider_api.Http.{Request, Handler, Claims}
use swayrider_api.Middleware.Access.{
  require_verified_user, require_admin, is_verified, is_admin_claims, unauthorized, forbidden,
  forbidden_email,
}

abbrev pub has_admin : Option Claims → Bool
has_admin none = false
has_admin (some c) = is_admin_claims c

abbrev pub has_verified : Option Claims → Bool
has_verified none = false
has_verified (some c) = is_verified c

module _ {S : Type 0} where
  pub require_admin-refuses :
      (h : Handler S) (r : Request) (s : S)
      → has_admin r.ctx.claims ≡ false
      → ((require_admin h r s).1 ≡ s)
        × (((require_admin h r s).0 ≡ unauthorized) ⊎ ((require_admin h r s).0 ≡ forbidden))
  unfolding require_admin
  require_admin-refuses h r s n = elim (Option-cases r.ctx.claims) [
    | inl x ↦ rw x (refl, inl refl)
    | inr (c, x) ↦
        let lacks : is_admin_claims c ≡ false = rw x at n in rw (x, lacks) (refl, inr refl)
  ]

  pub require_verified_user-refuses :
      (h : Handler S) (r : Request) (s : S)
      → has_verified r.ctx.claims ≡ false
      → ((require_verified_user h r s).1 ≡ s)
        × (((require_verified_user h r s).0 ≡ unauthorized)
            ⊎ ((require_verified_user h r s).0 ≡ forbidden_email))
  unfolding require_verified_user
  require_verified_user-refuses h r s n = elim (Option-cases r.ctx.claims) [
    | inl x ↦ rw x (refl, inl refl)
    | inr (c, x) ↦ let lacks : is_verified c ≡ false = rw x at n in rw (x, lacks) (refl, inr refl)
  ]
