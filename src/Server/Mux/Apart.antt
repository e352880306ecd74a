-- ===== src/Server/Mux/Apart.antt =====
-- The gateway's own patterns and the extension routes take no request together.
use swayrider_api.Base.{
  String, append, ◌≡◌, refl, ◌∙◌, subst, ◌≢◌, inl, inr, Bool, true, false, not, ◌&&◌, ◌||◌, Option,
  List, [], ◌∷◌, ◌==◌, any, all, arith, Bool-cases, In, eq_iff, has_prefix, ends_with, drop_text,
}
use swayrider_api.Base.Prefix.{has_prefix_trans, eq-append_of_has_prefix}
use swayrider_api.Extension.{Route, Url, reserved_prefixes, allowed_methods}
use swayrider_api.Extension.Validation.{AreEndpoints, mark, AreRoutes}
use swayrider_api.Extension.Routing.{matches_path}
use swayrider_api.Extension.Reserved.{IsInside, has_prefix_of_matches}
use swayrider_api.Server.{Entry, routes}
use swayrider_api.Server.Guards.{all-In}
use swayrider_api.Server.Mux.{takes_method}

-- Whether what a path of the gateway takes is inside a reserved prefix
unfoldable is_inside : String → String → Bool
is_inside p reserved =
    (p == reserved && not (ends_with p b'/')) || has_prefix p (append reserved "/")

unfoldable is_reserved : Entry → Bool
is_reserved e = any (is_inside e.path) reserved_prefixes

routes-reserved : all is_reserved routes ≡ true
unfolding is_reserved is_inside routes reserved_prefixes has_prefix ends_with
routes-reserved = refl

any-In :
    (f : String → Bool) (xs : List String) → any f xs ≡ true → (x : String) × In x xs × (f x ≡ true)
any-In f [] h = cc
any-In f (x ∷ xs) h = elim (Bool-cases (f x)) [
  | inl on ↦ (x, inl refl, on)
  | inr off ↦ let (y, i, e) = any-In f xs (ground (arith, h, off)) in (y, inr i, e)
]

inside :
    (p reserved s : String)
    → is_inside p reserved ≡ true
    → matches_path p s ≡ true
    → IsInside reserved s
unfolding is_inside matches_path
inside p reserved s e m = elim (Bool-cases (has_prefix p (append reserved "/"))) [
  | inl below ↦ inr (
    drop_text s (append reserved "/"),
    eq-append_of_has_prefix s (append reserved "/")
        (has_prefix_trans s p (append reserved "/") (has_prefix_of_matches p s m) below),
  )
  | inr apart ↦
      let same : (p == reserved) ≡ true = ground (arith, e, apart) in
      let exact : ends_with p b'/' ≡ false = ground (arith, e, apart) in
      let here : (s == p) ≡ true = rw (matches_path, exact) at m in
      inl ((eq_iff s p).0 here ∙ (eq_iff p reserved).0 same)
]

-- A request that one of the gateway's own paths takes is inside a reserved prefix.
pub routes-IsInside :
    (e : Entry) (s : String)
    → In e routes
    → matches_path e.path s ≡ true
    → (reserved : String) × In reserved reserved_prefixes × IsInside reserved s
unfolding is_reserved
routes-IsInside e s i m =
    let (reserved, listed, h) =
      any-In (is_inside e.path) reserved_prefixes (all-In is_reserved routes e routes-reserved i) in
    (reserved, listed, inside e.path reserved s h m)

endpoints-allowed :
    (path : String) (ms used : List String) (m : String)
    → AreEndpoints path ms used
    → In m ms
    → In m allowed_methods
endpoints-allowed path [] used m h i = absurd i
endpoints-allowed path (x ∷ ms) used m h (inl e) = rw e h.0
endpoints-allowed path (x ∷ ms) used m h (inr i) = endpoints-allowed path ms _ m h.2 i

-- The methods of a validated route are allowed ones.
pub routes-allowed :
    (url_parse : String → Option Url) (names used : List String) (ext : List Route) (x : Route)
    (m : String)
    → AreRoutes url_parse names used ext
    → In x ext
    → In m x.methods
    → In m allowed_methods
routes-allowed url_parse names used [] x m h i j = absurd i
routes-allowed url_parse names used (y ∷ ext) x m h (inl e) j =
    endpoints-allowed y.path y.methods used m h.2 (subst (λ (z : Route). In m z.methods) e j)
routes-allowed url_parse names used (y ∷ ext) x m h (inr i) j =
    routes-allowed url_parse (y.name ∷ names) (mark y.path y.methods used) ext x m h.3 i j

allowed_method-named : (m : String) → In m allowed_methods → (m == "") ≡ false
unfolding allowed_methods
allowed_method-named m (inl e) = rw (e) refl
allowed_method-named m (inr (inl e)) = rw (e) refl
allowed_method-named m (inr (inr (inl e))) = rw (e) refl
allowed_method-named m (inr (inr (inr (inl e)))) = rw (e) refl
allowed_method-named m (inr (inr (inr (inr x)))) = absurd x

-- An allowed method takes itself only, but for HEAD.
pub allowed_method-same :
    (m n : String) → In m allowed_methods → takes_method m n ≡ true → n ≢ "HEAD" → m ≡ n
unfolding takes_method
allowed_method-same m n i t h =
    let named = allowed_method-named m i in
    elim (Bool-cases (m == n)) [
      | inl same ↦ (eq_iff m n).0 same
      | inr apart ↦ elim (Bool-cases (n == "HEAD")) [
        | inl head ↦ absurd (h ((eq_iff n "HEAD").0 head))
        | inr other ↦ absurd (ground (arith, t, named, apart, other))
      ]
    ]
