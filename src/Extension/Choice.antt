-- ===== src/Extension/Choice.antt =====
-- internal/extension/extension.go: the route that Match chooses among validated ones.
use native.Mathlib.Decide.{dec_lt}
use swayrider_api.Base.{
  ◌≤◌, String, ◌≡◌, refl, sym, ap, ◌∙◌, ◌↔◌, ◌⊎◌, inl, inr, true, false, Option, none, some, List,
  [], ◌∷◌, arith, ◌==◌, eq_iff, All, All-In, In, Bool-cases, and-eq-true, subst, has_prefix, len,
}
use swayrider_api.Base.Prefix.{has_prefix_refl, eq_of_has_prefix}
use swayrider_api.Http.{Request}
use swayrider_api.Extension.{Route, Url, endpoint}
use swayrider_api.Extension.Validation.{mem_iff, AreEndpoints, mark, AreRoutes}
use swayrider_api.Extension.Routing.{matches_path, serves, better, match_from, match}

-- `x` is a route of the list that serves the request, and no other that serves it is longer.
pub record IsBest (routes : List Route) (r : Request) (x : Route) : Type 0 where
  pub listed : In x routes
  pub serving : serves x r ≡ true
  pub longest : (y : Route) → In y routes → serves y r ≡ true → len y.path ≤ len x.path

better_lem :
    (best route : Route)
    → (b : Route) × (better (some best) route ≡ some b)
      × ((b ≡ best) ⊎ (b ≡ route))
      × (len best.path ≤ len b.path)
      × (len route.path ≤ len b.path)
unfolding better
better_lem best route = elim (dec_lt (len best.path) (len route.path)) [
  | yes lt ↦ (route, ground arith, inr refl, omega arith, omega arith)
  | no ge ↦ (best, ground arith, inl refl, omega arith, omega arith)
]

module _ (r : Request) where
  -- What the loop has found: a serving route at least as long as `best` and as all that remain.
  match_from-some :
      (best : Route) (routes : List Route)
      → (x : Route) × (match_from (some best) routes r ≡ some x)
        × ((x ≡ best) ⊎ (In x routes × (serves x r ≡ true)))
        × (len best.path ≤ len x.path)
        × ((y : Route) → In y routes → serves y r ≡ true → len y.path ≤ len x.path)
  unfolding match_from
  match_from-some best [] = (best, refl, inl refl, omega arith, λ y m. absurd m)
  match_from-some best (route ∷ routes) = elim (Bool-cases (serves route r)) [
    | inr off ↦
        let (x, e, from, le, all) = match_from-some best routes in
        (
          x,
          rw (off, match_from) e,
          ground (arith, from),
          le,
          λ y m s. elim m [
            | inl here ↦ absurd (cc (ap (λ (z : Route). serves z r) here, s, off))
            | inr there ↦ all y there s
          ],
        )
    | inl on ↦
        let (b, step, which, le_best, le_route) = better_lem best route in
        let (x, e, from, le, all) = match_from-some b routes in
        (
          x,
          rw (on, match_from) (rw (step, match_from) e),
          elim which [
            | inl old ↦ elim from [ inl y ↦ inl (y ∙ old) | inr m ↦ inr (inr m.0, m.1) ]
            | inr new ↦ elim from [
              | inl y ↦ inr (inl (y ∙ new), rw (y ∙ new) on)
              | inr m ↦ inr (inr m.0, m.1)
            ]
          ],
          omega (arith, le, le_best),
          λ y m s. elim m [
            | inl here ↦ omega (arith, le, le_route, ap (λ (z : Route). len z.path) here)
            | inr there ↦ all y there s
          ],
        )
  ]

  match_from-none :
      (routes : List Route)
      → ((match_from none routes r ≡ none) × All (λ y. serves y r ≡ false) routes)
        ⊎ ((x : Route) × (match_from none routes r ≡ some x) × IsBest routes r x)
  unfolding match_from
  match_from-none [] = inl (refl, tt)
  match_from-none (route ∷ routes) = elim (Bool-cases (serves route r)) [
    | inr off ↦ elim (match_from-none routes) [
      | inl h ↦ inl (rw (off, match_from) h.0, (off, h.1))
      | inr (x, e, b) ↦ inr (
        x,
        rw (off, match_from) e,
        record {
          listed = inr b.listed;
          serving = b.serving;
          longest = λ y m s. elim m [
            | inl here ↦ absurd (cc (ap (λ (z : Route). serves z r) here, s, off))
            | inr there ↦ b.longest y there s
          ];
        },
      )
    ]
    | inl on ↦
        let (x, e, from, le, all) = match_from-some route routes in
        inr (
          x,
          rw (on, match_from) (unfold better in e),
          record {
            listed = elim from [ inl y ↦ inl y | inr m ↦ inr m.0 ];
            serving = elim from [ inl y ↦ rw y on | inr m ↦ m.1 ];
            longest = λ y m s. elim m [
              | inl here ↦ omega (arith, le, ap (λ (z : Route). len z.path) here)
              | inr there ↦ all y there s
            ];
          },
        )
  ]

-- A serving route's path is a prefix of the request's path.
has_prefix_of_serves :
    (x : Route) (r : Request) → serves x r ≡ true → has_prefix r.path x.path ≡ true
unfolding serves matches_path
has_prefix_of_serves x r h = elim (Bool-cases (r.path == x.path)) [
  | inl same ↦ rw ((eq_iff r.path x.path).0 same) (has_prefix_refl x.path)
  | inr other ↦ ground (arith, other)
]

pub method_of_serves : (x : Route) (r : Request) → serves x r ≡ true → In r.method x.methods
unfolding serves
method_of_serves x r h = (mem_iff x.methods r.method).0 (and-eq-true _ _ h).1

In-mark :
    (path : String) (ms used : List String) (k : String) → In k used → In k (mark path ms used)
In-mark path [] used k h = h
In-mark path (m ∷ ms) used k h = In-mark path ms (endpoint path m ∷ used) k (inr h)

endpoint-mark :
    (path : String) (ms used : List String) (m : String)
    → In m ms
    → In (endpoint path m) (mark path ms used)
endpoint-mark path [] used m h = absurd h
endpoint-mark path (n ∷ ms) used m (inl e) =
    In-mark path ms (endpoint path n ∷ used) _ (inl (ap (endpoint path) e))
endpoint-mark path (n ∷ ms) used m (inr h) = endpoint-mark path ms (endpoint path n ∷ used) m h

AreEndpoints-fresh :
    (path : String) (ms used : List String) (m : String)
    → AreEndpoints path ms used
    → In m ms
    → ¬ In (endpoint path m) used
AreEndpoints-fresh path [] used m h i u = absurd i
AreEndpoints-fresh path (n ∷ ms) used m h (inl e) u =
    h.1 (subst (λ k. In (endpoint path k) used) e u)
AreEndpoints-fresh path (n ∷ ms) used m h (inr i) u =
    AreEndpoints-fresh path ms (endpoint path n ∷ used) m h.2 i (inr u)

module _ (url_parse : String → Option Url) where
  AreRoutes-fresh :
      (names used : List String) (routes : List Route) (x : Route) (m : String)
      → AreRoutes url_parse names used routes
      → In x routes
      → In m x.methods
      → ¬ In (endpoint x.path m) used
  AreRoutes-fresh names used [] x m h i k u = absurd i
  AreRoutes-fresh names used (y ∷ routes) x m h (inl e) k u =
      subst (λ (z : Route). In m z.methods → ¬ In (endpoint z.path m) used) (sym e)
        (AreEndpoints-fresh y.path y.methods used m h.2) k u
  AreRoutes-fresh names used (y ∷ routes) x m h (inr i) k u =
      AreRoutes-fresh (y.name ∷ names) (mark y.path y.methods used) routes x m h.3 i k
        (In-mark y.path y.methods used _ u)

  -- A method and a path belong to one route only.
  endpoint_unique :
      (names used : List String) (routes : List Route) (x y : Route) (m : String)
      → AreRoutes url_parse names used routes
      → In x routes
      → In y routes
      → In m x.methods
      → In m y.methods
      → x.path ≡ y.path
      → x ≡ y
  endpoint_unique names used [] x y m h i j k l e = absurd i
  endpoint_unique names used (z ∷ routes) x y m h (inl i) (inl j) k l e = i ∙ sym j
  endpoint_unique names used (z ∷ routes) x y m h (inl i) (inr j) k l e = absurd (
      AreRoutes-fresh _ _ routes y m h.3 j l (
        rw (← e, i)
          (endpoint-mark z.path z.methods used m (subst (λ (w : Route). In m w.methods) i k))))
  endpoint_unique names used (z ∷ routes) x y m h (inr i) (inl j) k l e = absurd (
      AreRoutes-fresh _ _ routes x m h.3 i k (
        rw (e, j)
          (endpoint-mark z.path z.methods used m (subst (λ (w : Route). In m w.methods) j l))))
  endpoint_unique names used (z ∷ routes) x y m h (inr i) (inr j) k l e =
      endpoint_unique (z.name ∷ names) (mark z.path z.methods used) routes x y m h.3 i j k l e

  IsBest-unique :
      (routes : List Route) (r : Request) (x y : Route)
      → AreRoutes url_parse [] [] routes
      → IsBest routes r x
      → IsBest routes r y
      → x ≡ y
  IsBest-unique routes r x y h a b =
      endpoint_unique [] [] routes x y r.method h a.listed b.listed (method_of_serves x r a.serving)
        (method_of_serves y r b.serving)
        (eq_of_has_prefix r.path x.path y.path (has_prefix_of_serves x r a.serving)
          (has_prefix_of_serves y r b.serving)
          (omega (arith, a.longest y b.listed b.serving, b.longest x a.listed a.serving)))

-- Over validated routes Match answers a route exactly when it is listed, serves the request, and no
-- longer listed route does; so the order of the routes file does not matter.
pub match_iff :
    (url_parse : String → Option Url) (routes : List Route) (r : Request) (x : Route)
    → AreRoutes url_parse [] [] routes
    → (match routes r ≡ some x) ↔ IsBest routes r x
unfolding match
match_iff url_parse routes r x h = elim (match_from-none r routes) [
  | inl (e, off) ↦
      (λ k. absurd (cc (e, k)), λ b. absurd (cc (All-In _ routes x off b.listed, b.serving)))
  | inr (y, e, b) ↦ (
    λ k. subst (IsBest routes r) (ground (arith, e, k)) b,
    λ a. e ∙ ap some (IsBest-unique url_parse routes r y x h b a),
  )
]
