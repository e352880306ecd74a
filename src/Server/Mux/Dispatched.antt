-- ===== src/Server/Mux/Dispatched.antt =====
-- Which route serves a request, and which one's limits it is charged.
use swayrider_api.Base.{
  String, ◌≢◌, ◌≡◌, refl, sym, ap, ◌∙◌, subst, inl, inr, true, Option, some, List, [], ◌++◌, arith,
  In, len, and-eq-true, In-split, In-append_right,
}
use swayrider_api.Http.{Request, Handler}
use swayrider_api.Extension.{Route, Url}
use swayrider_api.Extension.Validation.{mem_iff, AreRoutes}
use swayrider_api.Extension.Choice.{IsBest, match_iff, method_of_serves}
use swayrider_api.Extension.Reserved.{match-reserved}
use swayrider_api.Server.Mux.Apart.{routes-IsInside, routes-allowed, allowed_method-same}
use swayrider_api.Server.Mux.Narrowest.{takes_method_refl, dispatch-longest}
use swayrider_api.Extension.Routing.{matches_path, match, serves, body_limit, rate_class, class_of}
use swayrider_api.Extension.Registered.{registered, register_on}
use swayrider_api.Server.{routes}
use swayrider_api.Server.Run.{register_routes}
use swayrider_api.Server.Mux.{
  Pattern, pattern, Mux, takes, add, dispatch, own_patterns, extension_patterns,
}
use swayrider_api.Server.Mux.Contents.{
  register_routes-adds, register_on-adds, own_patterns-In, extension_patterns-In,
  In-extension_patterns,
}

some_injective : (y x : Route) → ◌≡◌ {A = Option Route} (some y) (some x) → y ≡ x
some_injective y x e = cc

module _ {S : Type 0} (url_parse : String → Option Url) (handlers : String → Handler S)
    (ext_handler : Route → Handler S) (ext : List Route) (valid : AreRoutes url_parse [] [] ext)
    (r : Request) (x : Route) (found : match ext r ≡ some x) (not_head : r.method ≢ "HEAD") where
  -- None of the gateway's own patterns takes the request.
  own-apart : (p : Pattern S) → In p (own_patterns handlers routes) → takes p r ≡ true → ⊥
  unfolding takes
  own-apart p i on =
      let (e, j, k) = own_patterns-In handlers routes p i in
      let path : matches_path e.path r.path ≡ true =
        subst (λ (q : Pattern S). matches_path q.path r.path ≡ true) k (and-eq-true _ _ on).1 in
      let (reserved, listed, within) = routes-IsInside e r.path j path in
      let unmatched = (match-reserved url_parse ext r reserved valid listed within).0 in
      cc (unmatched, found)

  -- A pattern that takes the request is one of its method and of a route that serves it.
  taken-serves :
      (p : Pattern S)
      → In p (own_patterns handlers routes ++ extension_patterns ext_handler ext)
      → takes p r ≡ true
      → (y : Route) × In y ext × (serves y r ≡ true) × (p ≡ pattern r.method y.path (ext_handler y))
  unfolding takes serves
  taken-serves p i on =
      elim (In-split (own_patterns handlers routes) (extension_patterns ext_handler ext) p i) [
        | inl j ↦ absurd (own-apart p j on)
        | inr j ↦
            let (y, m, l, k, e) = extension_patterns-In ext_handler ext p j in
            let (method_on, path_on) = and-eq-true _ _ (subst (λ q. takes q r ≡ true) e on) in
            let same : m ≡ r.method =
              allowed_method-same m r.method (routes-allowed url_parse [] [] ext y m valid l k)
                method_on not_head in
            (
              y,
              l,
              rw (path_on, (mem_iff y.methods r.method).1 (subst (λ n. In n y.methods) same k))
                  refl,
              e ∙ ap (λ n. pattern n y.path (ext_handler y)) same,
            )
      ]

  -- The route's own pattern takes it.
  own_pattern-takes : takes (pattern r.method x.path (ext_handler x)) r ≡ true
  unfolding takes serves
  own_pattern-takes =
      let path : matches_path x.path r.path ≡ true =
        (and-eq-true _ _ ((match_iff url_parse ext r x valid).0 found).serving).0 in
      rw (takes_method_refl r.method, path) refl

  -- The gateway's own routes and then validated extension routes are on the mux. A request that is not
  -- HEAD and for which Match finds a route is dispatched to that route's handler, so that the route
  -- that serves it is the one whose body limit and rate class it is charged.
  pub dispatch-found :
      (own_mux full_mux : Mux S)
      → register_routes add handlers routes [] ≡ some own_mux
      → register_on add ext_handler ext own_mux ≡ registered full_mux
      → (dispatch full_mux r ≡ some (pattern r.method x.path (ext_handler x)))
        × (body_limit ext r ≡ some x.max_body_bytes)
        × (rate_class ext r ≡ some (class_of x))
  unfolding body_limit rate_class
  dispatch-found own_mux full_mux own_ok ext_ok =
      let all_patterns = own_patterns handlers routes ++ extension_patterns ext_handler ext in
      let contents : full_mux ≡ own_patterns handlers routes ++ extension_patterns ext_handler ext =
        register_on-adds ext_handler ext own_mux full_mux ext_ok
        ∙ ap (λ ps. ps ++ extension_patterns ext_handler ext)
            (register_routes-adds handlers routes [] own_mux own_ok) in
      let best = (match_iff url_parse ext r x valid).0 found in
      let (p, e, i, on, le) =
        dispatch-longest r all_patterns (pattern r.method x.path (ext_handler x))
          (In-append_right (own_patterns handlers routes) (extension_patterns ext_handler ext) _ (
            In-extension_patterns ext_handler ext x r.method best.listed
              (method_of_serves x r best.serving)))
          own_pattern-takes
          (λ q j k.
            let (y, l, s, eq) = taken-serves q j k in ap (λ (z : Pattern S). z.method) eq) in
      let (y, l, s, eq) = taken-serves p i on in
      let longest : IsBest ext r y = record {
        listed = l;
        serving = s;
        longest = λ z j k.
            let le_x = best.longest z j k in
            omega (arith, le, le_x, ap (λ (w : Pattern S). len w.path) eq);
      } in
      let same = some_injective y x (sym ((match_iff url_parse ext r y valid).1 longest) ∙ found) in
      (
        rw (contents)
            (e ∙ ap some (eq ∙ ap (λ (z : Route). pattern r.method z.path (ext_handler z)) same)),
        rw (body_limit, found) refl,
        rw (rate_class, found) refl,
      )
