-- ===== src/Server/Mux/Complete.antt =====
-- internal/extension/extension.go: Register never clashes on the gateway's mux, for validated routes.
use swayrider_api.Base.{
  String, ◌≡◌, refl, sym, ap, ◌∙◌, subst, ◌⊎◌, ◌≢◌, inl, inr, Bool, true, false, ◌||◌, Option, none,
  some, List, [], ◌∷◌, ◌++◌, ◌==◌, if-false, any, arith, Bool-cases, In, All-In, In-split, eq_iff,
  eq_refl, has_prefix, ends_with, true_not_false,
}
use swayrider_api.Base.Prefix.{has_prefix_refl, eq_of_has_prefix, len_of_has_prefix}
use swayrider_api.Http.{Handler}
use swayrider_api.Extension.{Route, Url, reserved_prefixes, allowed_methods, endpoint}
use swayrider_api.Extension.Paths.{IsResource, IsOutside}
use swayrider_api.Extension.Validation.{AreEndpoints, mark, AreRoutes}
use swayrider_api.Extension.Routing.{matches_path}
use swayrider_api.Extension.Registered.{registered, register_on, handle_methods}
use swayrider_api.Extension.Reserved.{has_prefix_of_matches, matches_path-reserved}
use swayrider_api.Server.{Entry, routes}
use swayrider_api.Server.Run.{register_routes}
use swayrider_api.Server.Mux.{
  Pattern, pattern, Mux, takes_method, is_wider, conflicts, add, own_patterns, extension_patterns,
}
use swayrider_api.Server.Mux.Apart.{routes-IsInside, allowed_method-same}
use swayrider_api.Server.Mux.Narrowest.{takes_method_refl}
use swayrider_api.Server.Mux.Contents.{own_patterns-In, register_on-adds}

matches_path_refl : (p : String) → matches_path p p ≡ true
unfolding matches_path
matches_path_refl p =
    let same = eq_refl p in let prefix = has_prefix_refl p in ground (arith, same, prefix)

-- Two paths that take each other are the same.
matches_path_antisym : (p q : String) → matches_path p q ≡ true → matches_path q p ≡ true → p ≡ q
matches_path_antisym p q a b =
    let below = has_prefix_of_matches p q a in
    let above = has_prefix_of_matches q p b in
    eq_of_has_prefix p p q (has_prefix_refl p) above
      (omega (arith, len_of_has_prefix q p below, len_of_has_prefix p q above))

-- A path of an extension route and one of the gateway's own take nothing together.
resource-apart :
    (path : String) (e : Entry)
    → IsResource path
    → In e routes
    → (matches_path path e.path ≡ false) × (matches_path e.path path ≡ false)
resource-apart path e res i = (
  off,
  elim (Bool-cases (matches_path e.path path)) [ inr apart ↦ apart | inl on ↦ absurd (hits on) ],
)
  where
    off : matches_path path e.path ≡ false
    off =
        let (reserved, listed, within) = routes-IsInside e e.path i (matches_path_refl e.path) in
        All-In _ reserved_prefixes reserved (matches_path-reserved path e.path res) listed within

    hits : matches_path e.path path ≡ true → ⊥
    hits on =
        let (reserved, listed, within) = routes-IsInside e path i on in
        let out = All-In (IsOutside path) reserved_prefixes reserved res.free listed in
        elim within [ inl same ↦ out.0 same | inr (t, same) ↦ out.1 t same ]

allowed-other : (m : String) → In m allowed_methods → (m == "HEAD") ≡ false
unfolding allowed_methods
allowed-other m (inl e) = rw (e) refl
allowed-other m (inr (inl e)) = rw (e) refl
allowed-other m (inr (inr (inl e))) = rw (e) refl
allowed-other m (inr (inr (inr (inl e)))) = rw (e) refl
allowed-other m (inr (inr (inr (inr x)))) = absurd x

allowed-not_head : (m : String) → In m allowed_methods → m ≢ "HEAD"
allowed-not_head m i h = true_not_false (sym ((eq_iff m "HEAD").1 h) ∙ allowed-other m i)

any-false :
    {A : Type 0} (f : A → Bool) (xs : List A) → ((x : A) → In x xs → f x ≡ false) → any f xs ≡ false
any-false f [] h = refl
any-false f (x ∷ xs) h =
    let here = h x (inl refl) in
    let rest = any-false f xs (λ y i. h y (inr i)) in ground (arith, here, rest)

same_method :
    (m n : String)
    → In m allowed_methods
    → In n allowed_methods
    → (takes_method m n || takes_method n m) ≡ true
    → m ≡ n
same_method m n i j shared = elim (Bool-cases (takes_method m n)) [
  | inl on ↦ allowed_method-same m n i on (allowed-not_head n j)
  | inr off ↦ sym (allowed_method-same n m j (ground (arith, shared, off)) (allowed-not_head m i))
]

module _ {S : Type 0} where
  -- A pattern that stands for an endpoint of a validated route, among those used.
  IsMarked : List String → Pattern S → Type 0
  IsMarked used q = In q.method allowed_methods × In (endpoint q.path q.method) used

  -- Patterns whose paths take nothing together do not conflict.
  conflicts-apart :
      (p q : Pattern S)
      → matches_path p.path q.path ≡ false
      → matches_path q.path p.path ≡ false
      → conflicts p q ≡ false
  unfolding conflicts
  conflicts-apart p q a b = ground (arith, a, b)

  -- Nor do those of different endpoints with allowed methods.
  conflicts-endpoints :
      (p q : Pattern S) (used : List String)
      → In p.method allowed_methods
      → IsMarked used q
      → ¬ In (endpoint p.path p.method) used
      → conflicts p q ≡ false
  unfolding conflicts IsMarked is_wider
  conflicts-endpoints p q used i h fresh =
      elim (Bool-cases (takes_method p.method q.method || takes_method q.method p.method)) [
        | inr apart ↦ rw (apart) refl
        | inl shared ↦
            let same = same_method p.method q.method i h.0 shared in
            let forth : takes_method p.method q.method ≡ true =
              rw (same) (takes_method_refl q.method) in
            let back : takes_method q.method p.method ≡ true =
              rw (same) (takes_method_refl q.method) in
            elim (Bool-cases (matches_path p.path q.path)) [
              | inr off ↦ elim (Bool-cases (matches_path q.path p.path)) [
                | inr apart ↦ conflicts-apart p q off apart
                | inl on ↦ rw (forth, back, off, on) refl
              ]
              | inl on ↦ elim (Bool-cases (matches_path q.path p.path)) [
                | inr off ↦ rw (forth, back, off, on) refl
                | inl both ↦
                    let path = matches_path_antisym p.path q.path on both in
                    absurd (fresh (rw (path, same) h.1))
              ]
            ]
      ]

  module _ (handlers : String → Handler S) where
    -- Every pattern on the mux is one of the gateway's own or of a used endpoint.
    IsKnown : List String → Mux S → Type 0
    IsKnown used mux =
        (q : Pattern S) → In q mux → In q (own_patterns handlers routes) ⊎ IsMarked used q

    -- A new endpoint of a validated route goes onto such a mux.
    add-new :
        (m path : String) (h : Handler S) (used : List String) (mux : Mux S)
        → IsKnown used mux
        → In m allowed_methods
        → IsResource path
        → ¬ In (endpoint path m) used
        → (mux' : Mux S) × (add m path h mux ≡ some mux') × IsKnown (endpoint path m ∷ used) mux'
    unfolding add IsKnown IsMarked
    add-new m path h used mux known i res fresh =
        let free = any-false (conflicts (pattern m path h)) mux (λ q j. elim (known q j) [
          | inl own ↦
              let (e, k, same) = own_patterns-In handlers routes q own in
              let (a, b) = resource-apart path e res k in
              conflicts-apart (pattern m path h) q
                (subst (λ (z : Pattern S). matches_path path z.path ≡ false) (sym same) a)
                (subst (λ (z : Pattern S). matches_path z.path path ≡ false) (sym same) b)
          | inr marked ↦ conflicts-endpoints (pattern m path h) q used i marked fresh
        ]) in
        (
          mux ++ pattern m path h ∷ [],
          if-false _ none _ free,
          λ q j. elim (In-split mux (pattern m path h ∷ []) q j) [
            | inl old ↦ elim (known q old) [
              | inl own ↦ inl own
              | inr marked ↦ inr (marked.0, inr marked.1)
            ]
            | inr (inl new) ↦
                inr (rw (new) i, inl (ap (λ (z : Pattern S). endpoint z.path z.method) new))
            | inr (inr none_left) ↦ absurd none_left
          ],
        )

    module _ (ext_handler : Route → Handler S) where
      handle_methods-all :
          (route : Route) (ms used : List String) (mux : Mux S)
          → IsResource route.path
          → AreEndpoints route.path ms used
          → IsKnown used mux
          → (mux' : Mux S) × (handle_methods add ext_handler route ms mux ≡ some mux')
            × IsKnown (mark route.path ms used) mux'
      unfolding handle_methods
      handle_methods-all route [] used mux res h known = (mux, refl, known)
      handle_methods-all route (m ∷ ms) used mux res h known =
          let (next, e, k) = add-new m route.path (ext_handler route) used mux known h.0 res h.1 in
          let (last, f, l) =
            handle_methods-all route ms (endpoint route.path m ∷ used) next res h.2 k in
          (last, rw (handle_methods, e) f, l)

      register_on-all :
          (url_parse : String → Option Url) (names used : List String) (ext : List Route)
          (mux : Mux S)
          → AreRoutes url_parse names used ext
          → IsKnown used mux
          → (mux' : Mux S) × (register_on add ext_handler ext mux ≡ registered mux')
      unfolding register_on
      register_on-all url_parse names used [] mux h known = (mux, refl)
      register_on-all url_parse names used (route ∷ ext) mux h known =
          let (next, e, k) = handle_methods-all route route.methods used mux h.0.path h.2 known in
          let (last, f) =
            register_on-all url_parse (route.name ∷ names) (mark route.path route.methods used) ext
              next h.3 k in
          (last, rw (register_on, e) f)

      own-registered : register_routes add handlers routes [] ≡ some (own_patterns handlers routes)
      unfolding register_routes add conflicts takes_method is_wider matches_path routes has_prefix
          ends_with
      own-registered = refl

      -- The gateway's own routes go onto an empty mux, and validated extension routes after them: none of
      -- their patterns conflicts, so that Register never fails for a file that Load has accepted, and the
      -- mux holds exactly the patterns of both.
      pub register_on_complete :
          (url_parse : String → Option Url) (ext : List Route)
          → AreRoutes url_parse [] [] ext
          → (register_routes add handlers routes [] ≡ some (own_patterns handlers routes))
            × (register_on add ext_handler ext (own_patterns handlers routes)
                ≡ registered (own_patterns handlers routes ++ extension_patterns ext_handler ext))
      unfolding IsKnown
      register_on_complete url_parse ext valid =
          let (full, e) =
            register_on-all url_parse [] [] ext (own_patterns handlers routes) valid
              (λ q i. inl i) in
          (
            own-registered,
            e
                ∙ ap registered
                    (register_on-adds ext_handler ext (own_patterns handlers routes) full e),
          )
