-- ===== src/Extension/Upstream/Guarded.antt =====
-- What an upstream service sees of a caller, and which callers reach it.
use swayrider_api.Base.{
  String, append, ◌≡◌, refl, ap, ◌⊎◌, inl, inr, ◌≢◌, Bool, true, false, Option, none, some, [], ◌∷◌,
  ◌==◌, eq_iff, Bool-cases, arith, has_prefix,
}
use swayrider_api.Http.{Headers, Request, Response, header_del, header_set}
use swayrider_api.Middleware.Access.{unauthorized, forbidden, forbidden_email}
use swayrider_api.Middleware.Access.Refusals.{
  has_admin, has_verified, require_admin-refuses, require_verified_user-refuses,
}
use swayrider_api.Extension.{Route, auth_user, auth_admin}
use swayrider_api.Extension.Upstream.{
  is_identity, drop_identity, prepare_upstream_request, handler, forward, Trip,
}

not_named : (name k : String) → (name == k) ≡ false → name ≢ k
not_named name k n e = let same = (eq_iff name k).1 e in cc

module _ (to_lower : String → String) where
  -- A header that an upstream may be sent: in lower case its name is no name of a claim about the
  -- caller, and it is no cookie.
  abbrev pub IsPlain : String × String → Type 0
  IsPlain (name, v) =
      (has_prefix (to_lower name) "x-swayrider-" ≡ false)
      × (has_prefix (to_lower name) "x-forwarded-user" ≡ false)
      × (has_prefix (to_lower name) "x-auth-" ≡ false)
      × (to_lower name ≢ "x-user-id")
      × (to_lower name ≢ "x-remote-user")
      × (name ≢ "Cookie")

  is_identity-Plain :
      (name v : String)
      → is_identity to_lower (to_lower name) ≡ false
      → name ≢ "Cookie"
      → IsPlain (name, v)
  is_identity-Plain name v e cookie = (
    ground (arith, e),
    ground (arith, e),
    ground (arith, e),
    not_named (to_lower name) "x-user-id" (ground (arith, e)),
    not_named (to_lower name) "x-remote-user" (ground (arith, e)),
    cookie,
  )

  -- The headers of a request, apart from the gateway's own.
  abbrev pub AreSent : Bool → Option String → Headers → Type 0
  AreSent forwards jwt [] = Unit
  AreSent forwards jwt ((name, v) ∷ headers) =
      (IsPlain (name, v) × (name ≢ "Authorization")
        ⊎ (forwards ≡ true)
          × (name ≡ "Authorization")
          × ((token : String) × (jwt ≡ some token) × (v ≡ append "Bearer " token)))
      × AreSent forwards jwt headers

  dropped-AreSent :
      (forwards : Bool) (jwt : Option String) (headers : Headers)
      → AreSent forwards jwt
          (drop_identity to_lower (header_del (header_del headers "Cookie") "Authorization"))
  unfolding drop_identity header_del
  dropped-AreSent forwards jwt [] = tt
  dropped-AreSent forwards jwt ((name, v) ∷ headers) =
      let rest = dropped-AreSent forwards jwt headers in
      elim (Bool-cases (name == "Cookie")) [
        | inl cookie ↦ rw cookie rest
        | inr plain ↦ elim (Bool-cases (name == "Authorization")) [
          | inl own ↦ rw (plain, own) rest
          | inr other ↦ elim (Bool-cases (is_identity to_lower (to_lower name))) [
            | inl claim ↦ rw (plain, other, claim) rest
            | inr silent ↦
                rw (plain, other, silent)
                  (
                    inl (
                      is_identity-Plain name v silent (not_named name "Cookie" plain),
                      not_named name "Authorization" other,
                    ),
                    rest,
                  )
          ]
        ]
      ]

  -- Deleting a header keeps the rest of the headers as they are.
  header_del-AreSent :
      (forwards : Bool) (jwt : Option String) (headers : Headers) (k : String)
      → AreSent forwards jwt headers
      → AreSent forwards jwt (header_del headers k)
  unfolding header_del
  header_del-AreSent forwards jwt [] k h = tt
  header_del-AreSent forwards jwt ((name, v) ∷ headers) k h =
      let rest = header_del-AreSent forwards jwt headers k h.1 in
      elim (Bool-cases (name == k)) [ inl e ↦ rw e rest | inr n ↦ rw n (h.0, rest) ]

  -- Every header sent upstream is plain, or is the bearer token that the gateway verified, and that
  -- one only where the route forwards it. A plain header is no cookie, and its name in lower case is
  -- not x-user-id or x-remote-user and does not start with x-swayrider-, x-forwarded-user or x-auth-.
  pub prepare_upstream_request-AreSent :
      (headers : Headers) (jwt : Option String) (forwards : Bool)
      → AreSent forwards jwt (prepare_upstream_request to_lower headers jwt forwards)
  unfolding prepare_upstream_request header_set
  prepare_upstream_request-AreSent headers jwt false = dropped-AreSent false jwt headers
  prepare_upstream_request-AreSent headers none true = dropped-AreSent true none headers
  prepare_upstream_request-AreSent headers (some token) true = elim (Bool-cases (token == "")) [
    | inl empty ↦ rw empty (dropped-AreSent true (some token) headers)
    | inr full ↦ rw full (
      inr (refl, refl, (token, refl, refl)),
      header_del-AreSent true (some token) _ "Authorization"
          (dropped-AreSent true (some token) headers),
    )
  ]

  module _ {S : Type 0} (round_trip : Request → S → Trip × S) where
    -- A route for users or administrators is not forwarded for a caller who is none: the answer is
    -- 401 or 403, and neither the upstream nor the breaker is reached.
    pub handler-refuses :
        (breakers : Option (String → (S → (Response × Bool) × S) → S → Option Response × S))
        (route : Route) (r : Request) (s : S)
        → ((route.auth ≡ auth_user) × (has_verified r.ctx.claims ≡ false))
          ⊎ ((route.auth ≡ auth_admin) × (has_admin r.ctx.claims ≡ false))
        → ((handler to_lower round_trip breakers route r s).1 ≡ s)
          × (((handler to_lower round_trip breakers route r s).0 ≡ unauthorized)
              ⊎ ((handler to_lower round_trip breakers route r s).0 ≡ forbidden_email)
              ⊎ ((handler to_lower round_trip breakers route r s).0 ≡ forbidden))
    unfolding handler
    handler-refuses breakers route r s (inl (user, n)) =
        let (kept, answer) =
          require_verified_user-refuses (forward to_lower round_trip breakers route) r s n in
        let own : (route.auth == auth_user) ≡ true = (eq_iff route.auth auth_user).1 user in
        rw own (kept, elim answer [ inl a ↦ inl a | inr b ↦ inr (inl b) ])
    handler-refuses breakers route r s (inr (admin, n)) =
        let (kept, answer) =
          require_admin-refuses (forward to_lower round_trip breakers route) r s n in
        let other : (route.auth == auth_user) ≡ false = ap (λ (a : String). a == auth_user) admin in
        let own : (route.auth == auth_admin) ≡ true = (eq_iff route.auth auth_admin).1 admin in
        rw (other, own) (kept, elim answer [ inl a ↦ inl a | inr b ↦ inr (inr b) ])
