-- ===== src/Server/Mux/Contents.antt =====
-- The patterns that are on the mux after registerRoutes and Register.
use mathlib.Core.List.{append_assoc, append-nil}
use swayrider_api.Base.{
  String, ◌≡◌, refl, sym, ap, ◌∙◌, subst, inl, inr, none, some, List, [], ◌∷◌, ◌++◌, if-true,
  if-false, any, Bool-cases, Option-cases, In, In-split, In-append_left, In-append_right,
}
use swayrider_api.Http.{Handler}
use swayrider_api.Extension.{Route}
use swayrider_api.Extension.Registered.{registered, clash, register_on, handle_methods}
use swayrider_api.Server.{Entry, serve}
use swayrider_api.Server.Run.{register_routes}
use swayrider_api.Server.Mux.{
  Pattern, pattern, Mux, conflicts, add, own_patterns, method_patterns, extension_patterns,
}

module _ {S : Type 0} where
  add-adds :
      (m p : String) (h : Handler S) (mux mux' : Mux S)
      → add m p h mux ≡ some mux'
      → mux' ≡ mux ++ pattern m p h ∷ []
  unfolding add
  add-adds m p h mux mux' e = elim (Bool-cases (any (conflicts (pattern m p h)) mux)) [
    | inl clashing ↦ cc (if-true _ none (some (mux ++ pattern m p h ∷ [])) clashing, e)
    | inr free ↦ cc (if-false _ none (some (mux ++ pattern m p h ∷ [])) free, e)
  ]

  pub register_routes-adds :
      (handlers : String → Handler S) (es : List Entry) (mux mux' : Mux S)
      → register_routes add handlers es mux ≡ some mux'
      → mux' ≡ mux ++ own_patterns handlers es
  unfolding register_routes
  register_routes-adds handlers [] mux mux' e =
      let same : mux ≡ mux' = cc in sym same ∙ sym (append-nil mux)
  register_routes-adds handlers (x ∷ es) mux mux' e =
      elim (Option-cases (add x.method x.path (serve handlers x) mux)) [
        | inl n ↦ let stopped : none ≡ some mux' = rw (register_routes, n) at e in cc
        | inr (mux₁, k) ↦
            let rest : register_routes add handlers es mux₁ ≡ some mux' =
              rw (register_routes, k) at e in
            register_routes-adds handlers es mux₁ mux' rest
            ∙ ap (λ ps. ps ++ own_patterns handlers es)
                (add-adds x.method x.path (serve handlers x) mux mux₁ k)
            ∙ append_assoc mux _ _
      ]

  handle_methods-adds :
      (ext_handler : Route → Handler S) (route : Route) (ms : List String) (mux mux' : Mux S)
      → handle_methods add ext_handler route ms mux ≡ some mux'
      → mux' ≡ mux ++ method_patterns (ext_handler route) route ms
  unfolding handle_methods
  handle_methods-adds ext_handler route [] mux mux' e =
      let same : mux ≡ mux' = cc in sym same ∙ sym (append-nil mux)
  handle_methods-adds ext_handler route (m ∷ ms) mux mux' e =
      elim (Option-cases (add m route.path (ext_handler route) mux)) [
        | inl n ↦ let stopped : none ≡ some mux' = rw (handle_methods, n) at e in cc
        | inr (mux₁, k) ↦
            let rest : handle_methods add ext_handler route ms mux₁ ≡ some mux' =
              rw (handle_methods, k) at e in
            handle_methods-adds ext_handler route ms mux₁ mux' rest
            ∙ ap (λ ps. ps ++ method_patterns (ext_handler route) route ms)
                (add-adds m route.path (ext_handler route) mux mux₁ k)
            ∙ append_assoc mux _ _
      ]

  pub register_on-adds :
      (ext_handler : Route → Handler S) (ext : List Route) (mux mux' : Mux S)
      → register_on add ext_handler ext mux ≡ registered mux'
      → mux' ≡ mux ++ extension_patterns ext_handler ext
  unfolding register_on
  register_on-adds ext_handler [] mux mux' e =
      let same : mux ≡ mux' = cc in sym same ∙ sym (append-nil mux)
  register_on-adds ext_handler (route ∷ ext) mux mux' e =
      elim (Option-cases (handle_methods add ext_handler route route.methods mux)) [
        | inl n ↦ let stopped : clash route.name ≡ registered mux' = rw (register_on, n) at e in cc
        | inr (mux₁, k) ↦
            let rest : register_on add ext_handler ext mux₁ ≡ registered mux' =
              rw (register_on, k) at e in
            register_on-adds ext_handler ext mux₁ mux' rest
            ∙ ap (λ ps. ps ++ extension_patterns ext_handler ext)
                (handle_methods-adds ext_handler route route.methods mux mux₁ k)
            ∙ append_assoc mux _ _
      ]

  -- A pattern of the gateway's own routes is one of its entries, and one of an extension's is a method of
  -- a route.
  pub own_patterns-In :
      (handlers : String → Handler S) (es : List Entry) (p : Pattern S)
      → In p (own_patterns handlers es)
      → (e : Entry) × In e es × (p ≡ pattern e.method e.path (serve handlers e))
  own_patterns-In handlers [] p i = absurd i
  own_patterns-In handlers (e ∷ es) p (inl same) = (e, inl refl, same)
  own_patterns-In handlers (e ∷ es) p (inr i) =
      let (x, j, k) = own_patterns-In handlers es p i in (x, inr j, k)

  method_patterns-In :
      (h : Handler S) (route : Route) (ms : List String) (p : Pattern S)
      → In p (method_patterns h route ms)
      → (m : String) × In m ms × (p ≡ pattern m route.path h)
  method_patterns-In h route [] p i = absurd i
  method_patterns-In h route (m ∷ ms) p (inl same) = (m, inl refl, same)
  method_patterns-In h route (m ∷ ms) p (inr i) =
      let (x, j, k) = method_patterns-In h route ms p i in (x, inr j, k)

  pub extension_patterns-In :
      (h : Route → Handler S) (ext : List Route) (p : Pattern S)
      → In p (extension_patterns h ext)
      → (x : Route) × (m : String) × In x ext × In m x.methods × (p ≡ pattern m x.path (h x))
  extension_patterns-In h [] p i = absurd i
  extension_patterns-In h (y ∷ ext) p i =
      elim (In-split (method_patterns (h y) y y.methods) (extension_patterns h ext) p i) [
        | inl j ↦ let (m, k, e) = method_patterns-In (h y) y y.methods p j in (y, m, inl refl, k, e)
        | inr j ↦ let (x, m, l, k, e) = extension_patterns-In h ext p j in (x, m, inr l, k, e)
      ]

  In-method_patterns :
      (h : Handler S) (route : Route) (ms : List String) (m : String)
      → In m ms
      → In (pattern m route.path h) (method_patterns h route ms)
  In-method_patterns h route [] m i = absurd i
  In-method_patterns h route (n ∷ ms) m (inl e) = inl (ap (λ k. pattern k route.path h) e)
  In-method_patterns h route (n ∷ ms) m (inr i) = inr (In-method_patterns h route ms m i)

  pub In-extension_patterns :
      (h : Route → Handler S) (ext : List Route) (x : Route) (m : String)
      → In x ext
      → In m x.methods
      → In (pattern m x.path (h x)) (extension_patterns h ext)
  In-extension_patterns h [] x m i j = absurd i
  In-extension_patterns h (y ∷ ext) x m (inl e) j =
      In-append_left (method_patterns (h y) y y.methods) (extension_patterns h ext) _ (
        rw (e) (In-method_patterns (h y) y y.methods m (subst (λ (z : Route). In m z.methods) e j)))
  In-extension_patterns h (y ∷ ext) x m (inr i) j =
      In-append_right (method_patterns (h y) y y.methods) (extension_patterns h ext) _
        (In-extension_patterns h ext x m i j)
