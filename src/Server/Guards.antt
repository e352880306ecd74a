-- ===== src/Server/Guards.antt =====
-- internal/server: the guards of the registered routes, and the accepted CORS origins.
use swayrider_api.Base.{
  String, ◌≡◌, refl, sym, ap, ◌∙◌, ◌⊎◌, ◌≢◌, inl, inr, Bool, true, false, not, ◌&&◌, ◌||◌, List, [],
  ◌∷◌, ◌==◌, eq_iff, arith, has_prefix, ends_with, trim_space, In, All, all, Bool-cases,
  true_not_false, and-eq-true, map, if-true, if-false,
}
use swayrider_api.Base.Prefix.{has_prefix_total}
use swayrider_api.Http.{Request, Handler}
use swayrider_api.Middleware.Access.{unauthorized, forbidden, forbidden_email}
use swayrider_api.Middleware.Access.Refusals.{
  has_admin, has_verified, require_admin-refuses, require_verified_user-refuses,
}
use swayrider_api.Server.{
  Access, anyone, verified_user, administrator, Entry, routes, fits, guarded, serve,
  normalize_cors_origins,
}

same_access : Access → Access → Bool
same_access anyone anyone = true
same_access verified_user verified_user = true
same_access administrator administrator = true
same_access _ _ = false

same_access-eq : (a b : Access) → same_access a b ≡ true → a ≡ b
unfolding same_access
same_access-eq anyone anyone h = refl
same_access-eq verified_user verified_user h = refl
same_access-eq administrator administrator h = refl
same_access-eq anyone verified_user h = cc
same_access-eq anyone administrator h = cc
same_access-eq verified_user anyone h = cc
same_access-eq verified_user administrator h = cc
same_access-eq administrator anyone h = cc
same_access-eq administrator verified_user h = cc

-- Whether some path below `p` can fit the pattern.
unfoldable meets : String → Entry → Bool
meets p e = has_prefix e.path p || (ends_with e.path b'/' && has_prefix p e.path)

unfoldable covered : String → Access → Entry → Bool
covered p a e = not (meets p e) || same_access e.access a

fits-path :
    (e : Entry) (r : Request)
    → fits e r ≡ true
    → ((ends_with e.path b'/' ≡ true) × (has_prefix r.path e.path ≡ true)) ⊎ (r.path ≡ e.path)
unfolding fits
fits-path e r f = elim (Bool-cases (ends_with e.path b'/')) [
  | inl slash ↦ inl (slash, ground (arith, f, slash))
  | inr exact ↦ inr ((eq_iff r.path e.path).0 (ground (arith, f, exact)))
]

-- A pattern that a request below `p` fits meets `p`.
fits-meets :
    (p : String) (e : Entry) (r : Request)
    → fits e r ≡ true
    → has_prefix r.path p ≡ true
    → meets p e ≡ true
unfolding meets
fits-meets p e r f u = elim (fits-path e r f) [
  | inl (slash, h) ↦ elim (has_prefix_total r.path e.path p h u) [
    | inl below ↦ ground (arith, below)
    | inr above ↦ ground (arith, slash, above)
  ]
  | inr same ↦ let below : has_prefix e.path p ≡ true = rw same at u in ground (arith, below)
]

right_of_not_left : (a b : Bool) → (not a || b) ≡ true → a ≡ true → b ≡ true
right_of_not_left true b h u = h
right_of_not_left false b h u = cc

covered-access :
    (p : String) (a : Access) (e : Entry) (r : Request)
    → covered p a e ≡ true
    → fits e r ≡ true
    → has_prefix r.path p ≡ true
    → e.access ≡ a
unfolding covered
covered-access p a e r h f u =
    same_access-eq e.access a
      (right_of_not_left (meets p e) (same_access e.access a) h (fits-meets p e r f u))

-- The paths that need an administrator, and those that need a verified user.
abbrev pub admin_paths : String
admin_paths = "/api/v1/auth/admin/"

abbrev pub IsUserPath : String → Type 0
IsUserPath p =
    (p ≡ "/api/v1/route") ⊎ (p ≡ "/api/v1/search") ⊎ (p ≡ "/api/v1/region/") ⊎ (p ≡ "/v1/tiles/")

routes-admin : all (covered admin_paths administrator) routes ≡ true
unfolding covered meets routes has_prefix ends_with same_access
routes-admin = refl

routes-user : (p : String) → IsUserPath p → all (covered p verified_user) routes ≡ true
unfolding covered meets routes has_prefix ends_with same_access
routes-user p (inl e) = rw e refl
routes-user p (inr (inl e)) = rw e refl
routes-user p (inr (inr (inl e))) = rw e refl
routes-user p (inr (inr (inr e))) = rw e refl

pub all-In :
    (f : Entry → Bool) (es : List Entry) (e : Entry) → all f es ≡ true → In e es → f e ≡ true
all-In f (x ∷ es) e h (inl same) = ap f same ∙ (and-eq-true _ _ h).0
all-In f (x ∷ es) e h (inr m) = all-In f es e (and-eq-true _ _ h).1 m
all-In f [] e h m = absurd m

module _ {S : Type 0} (handlers : String → Handler S) where
  -- A request below the administrators' paths, whose claims are missing or not an administrator's, is
  -- refused with 401 or 403 by every registered pattern that it fits, and the state stays.
  pub serve-admin :
      (e : Entry) (r : Request) (s : S)
      → In e routes
      → fits e r ≡ true
      → has_prefix r.path admin_paths ≡ true
      → has_admin r.ctx.claims ≡ false
      → ((serve handlers e r s).1 ≡ s)
        × (((serve handlers e r s).0 ≡ unauthorized) ⊎ ((serve handlers e r s).0 ≡ forbidden))
  unfolding serve guarded
  serve-admin e r s m f u n =
      let needs =
        covered-access admin_paths administrator e r (all-In _ routes e routes-admin m) f u in
      rw needs (require_admin-refuses (handlers e.handler) r s n)

  -- A request below the paths of routing, search, regions and tiles, whose claims are missing or have
  -- no verified email address, is refused with 401 or 403 by every registered pattern that it fits,
  -- and the state stays.
  pub serve-user :
      (p : String) (e : Entry) (r : Request) (s : S)
      → IsUserPath p
      → In e routes
      → fits e r ≡ true
      → has_prefix r.path p ≡ true
      → has_verified r.ctx.claims ≡ false
      → ((serve handlers e r s).1 ≡ s)
        × (((serve handlers e r s).0 ≡ unauthorized) ⊎ ((serve handlers e r s).0 ≡ forbidden_email))
  unfolding serve guarded
  serve-user p e r s h m f u n =
      let needs = covered-access p verified_user e r (all-In _ routes e (routes-user p h) m) f u in
      rw needs (require_verified_user-refuses (handlers e.handler) r s n)

inr-injective : {a b : List String} → ◌≡◌ {A = String ⊎ List String} (inr a) (inr b) → a ≡ b
inr-injective e = cc

abbrev pub IsSafeOrigin : String → Type 0
IsSafeOrigin o = (o ≢ "") × (o ≢ "*")

normalize_cors_origins-cases :
    (origins : List String)
    → ((err : String) × (normalize_cors_origins origins ≡ inl err))
      ⊎ (normalize_cors_origins origins ≡ inr (map trim_space origins))
        × All IsSafeOrigin (map trim_space origins)
unfolding normalize_cors_origins
normalize_cors_origins-cases [] = inr (refl, tt)
normalize_cors_origins-cases (o ∷ origins) = elim (Bool-cases (trim_space o == "")) [
  | inl empty ↦ inl (_, if-true _ _ _ empty)
  | inr full ↦ elim (Bool-cases (trim_space o == "*")) [
    | inl star ↦ inl (_, if-false _ _ _ full ∙ if-true _ _ _ star)
    | inr named ↦ elim (normalize_cors_origins-cases origins) [
      | inl (err, x) ↦ inl (err, rw (full, named, x) refl)
      | inr (x, safe) ↦ inr (
        rw (full, named, x) refl,
        (
          (
            λ e. true_not_false (sym ((eq_iff _ _).1 e) ∙ full),
            λ e. true_not_false (sym ((eq_iff _ _).1 e) ∙ named),
          ),
          safe,
        ),
      )
    ]
  ]
]

-- Where the CORS origins are accepted, there are as many as configured, each configured one trimmed,
-- and none is empty or the bare star.
pub normalize_cors_origins-safe :
    (origins out : List String)
    → normalize_cors_origins origins ≡ inr out
    → (out ≡ map trim_space origins) × All IsSafeOrigin out
normalize_cors_origins-safe origins out h = elim (normalize_cors_origins-cases origins) [
  | inl (err, x) ↦ let clash = sym x ∙ h in cc
  | inr (x, safe) ↦
      let same : out ≡ map trim_space origins = inr-injective (sym h ∙ x) in (same, rw same safe)
]
