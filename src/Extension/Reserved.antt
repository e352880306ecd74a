-- ===== src/Extension/Reserved.antt =====
-- internal/extension/extension.go: validated routes and the paths of reservedPrefixes.
use text.Mathlib.TextLemmas.{append_assoc, append-nil, nil-append, cons-append}
use swayrider_api.Base.{
  String, append, ◌≡◌, refl, sym, ◌∙◌, ◌≢◌, ◌⊎◌, inl, inr, true, false, Option, none, List, [], ◌∷◌,
  arith, ◌==◌, eq_iff, All, All-In, In, Bool-cases, Option-cases, subst, has_prefix, ends_with,
  contains_char,
}
use swayrider_api.Base.Prefix.{
  has_prefix-append, eq-append_of_has_prefix, has_prefix_trans, has_prefix_total,
  has_prefix-append_append, has_prefix_slash, ends_with-append, has_prefix_refl,
}
use swayrider_api.Http.{Request}
use swayrider_api.Extension.{Route, Url, base, reserved_prefixes}
use swayrider_api.Extension.Paths.{IsOutside, IsResource}
use swayrider_api.Extension.Validation.{AreRoutes, mark}
use swayrider_api.Extension.Routing.{matches_path, serves, match, body_limit, rate_class}
use swayrider_api.Extension.Choice.{match_iff}

-- `p` is the reserved path `r` or below it.
abbrev pub IsInside : String → String → Type 0
IsInside r p = (p ≡ r) ⊎ ((t : String) × (p ≡ append (append r "/") t))

pub has_prefix_of_matches : (q p : String) → matches_path q p ≡ true → has_prefix p q ≡ true
unfolding matches_path
has_prefix_of_matches q p h = elim (Bool-cases (p == q)) [
  | inl same ↦ rw ((eq_iff p q).0 same) (has_prefix_refl q)
  | inr other ↦ ground (arith, other)
]

-- A prefix pattern below /api/v1/ that reaches `base ++ w ++ "/"` is itself below it.
reaches :
    (w u t : String)
    → contains_char w b'/' ≡ false
    → t ≢ ""
    → has_prefix (append (append (append base w) "/") u) (append base t) ≡ true
    → ends_with (append base t) b'/' ≡ true
    → has_prefix (append base t) (append (append base w) "/") ≡ true
reaches w u String.[] n ne h e = absurd (ne refl)
reaches w u (String.◌∷◌ c t) n ne h e =
    rw (append_assoc, has_prefix-append_append)
      (has_prefix_slash w _ u (String.◌∷◌ c t) refl n
        (rw (append_assoc, append_assoc, has_prefix-append_append, cons-append, nil-append) at h)
        (rw ends_with-append at e))

-- What is inside a prefix has `r` or `r ++ "/"` as a prefix.
module _ (q p r : String) (res : IsResource q) (out : IsOutside q r) (ins : IsInside r p) where
  has_prefix_inside : has_prefix p r ≡ true
  has_prefix_inside = elim ins [
    | inl e ↦ rw e (has_prefix_refl r)
    | inr (t, e) ↦ rw (e, append_assoc) (has_prefix-append r _)
  ]

  not_exact : p ≢ q
  not_exact e = elim ins [ inl k ↦ out.0 (sym e ∙ k) | inr (t, k) ↦ out.1 t (sym e ∙ k) ]

  -- a text that starts with `r ++ "/"` and has `q` as a prefix
  extended : has_prefix p q ≡ true → (u : String) × (has_prefix (append (append r "/") u) q ≡ true)
  extended h = elim ins [
    | inl e ↦ (
      "",
      rw append-nil (
          has_prefix_trans _ r q (has_prefix-append r "/")
            (subst (λ x. has_prefix x q ≡ true) e h)),
    )
    | inr (t, e) ↦ (t, subst (λ x. has_prefix x q ≡ true) e h)
  ]

  outside_below_base :
      (w : String) → r ≡ append base w → contains_char w b'/' ≡ false → matches_path q p ≡ false
  outside_below_base w e n = elim (Bool-cases (matches_path q p)) [
    | inr off ↦ off
    | inl on ↦ absurd (
        out.1 _ (
          eq-append_of_has_prefix q (append r "/") (
            let (u, h) = extended (has_prefix_of_matches q p on) in
            rw (e, res.below.2)
              (reaches w u res.below.0 n res.below.1 (rw (e, res.below.2) at h)
                (rw res.below.2 at (ends on))))))
  ]
    where
      ends : matches_path q p ≡ true → ends_with q b'/' ≡ true
      ends h =
          unfold matches_path in
          elim (Bool-cases (ends_with q b'/')) [
            | inl e ↦ e
            | inr no_slash ↦ absurd (not_exact ((eq_iff p q).0 (rw (no_slash, matches_path) at h)))
          ]

  outside_apart : has_prefix r base ≡ false → has_prefix base r ≡ false → matches_path q p ≡ false
  outside_apart a b = elim (Bool-cases (matches_path q p)) [
    | inr off ↦ off
    | inl on ↦
        let below : has_prefix q base ≡ true = rw res.below.2 (has_prefix-append base _) in
        elim (has_prefix_total p r base has_prefix_inside
          (has_prefix_trans p q base (has_prefix_of_matches q p on) below)) [
            | inl h ↦ cc (h, a)
            | inr h ↦ cc (h, b)
          ]
  ]

pub matches_path-reserved :
    (q p : String)
    → IsResource q
    → All (λ r. IsInside r p → matches_path q p ≡ false) reserved_prefixes
unfolding reserved_prefixes contains_char has_prefix
matches_path-reserved q p res =
    let f = res.free in
    (
      λ i. outside_below_base q p "/api/v1/auth" res f.0 i "auth" refl refl,
      (
        λ i. outside_below_base q p "/api/v1/route" res f.1.0 i "route" refl refl,
        (
          λ i. outside_below_base q p "/api/v1/search" res f.1.1.0 i "search" refl refl,
          (
            λ i. outside_below_base q p "/api/v1/region" res f.1.1.1.0 i "region" refl refl,
            (
              λ i. outside_apart q p "/v1/tiles" res f.1.1.1.1.0 i refl refl,
              (
                λ i. outside_apart q p "/web" res f.1.1.1.1.1.0 i refl refl,
                (
                  λ i. outside_apart q p "/health" res f.1.1.1.1.1.1.0 i refl refl,
                  (
                    λ i. outside_apart q p "/api/openapi.yaml" res f.1.1.1.1.1.1.1.0 i refl refl,
                    tt,
                  ),
                ),
              ),
            ),
          ),
        ),
      ),
    )

module _ (url_parse : String → Option Url) where
  safe_path :
      (names used : List String) (routes : List Route) (x : Route)
      → AreRoutes url_parse names used routes
      → In x routes
      → IsResource x.path
  safe_path names used [] x h i = absurd i
  safe_path names used (y ∷ routes) x h (inl e) = rw e h.0.path
  safe_path names used (y ∷ routes) x h (inr i) =
      safe_path (y.name ∷ names) (mark y.path y.methods used) routes x h.3 i

-- No validated extension route is chosen for a request to a reserved path or below one, whatever
-- its method: neither its body limit nor its rate-limit class ever replaces the gateway's own there.
pub match-reserved :
    (url_parse : String → Option Url) (routes : List Route) (r : Request) (reserved : String)
    → AreRoutes url_parse [] [] routes
    → In reserved reserved_prefixes
    → IsInside reserved r.path
    → (match routes r ≡ none) × (body_limit routes r ≡ none) × (rate_class routes r ≡ none)
unfolding body_limit rate_class
match-reserved url_parse routes r reserved h listed inside = elim (Option-cases (match routes r)) [
  | inl e ↦ (e, rw (e, body_limit), rw (e, rate_class))
  | inr (x, e) ↦
      let best = (match_iff url_parse routes r x h).0 e in
      let off =
        All-In _ reserved_prefixes reserved
          (matches_path-reserved x.path r.path (safe_path url_parse [] [] routes x h best.listed))
          listed inside in
      absurd (unserved x off best.serving)
]
  where
    unserved : (x : Route) → matches_path x.path r.path ≡ false → serves x r ≡ true → ⊥
    unserved x off s = unfold serves in ground (arith, off, s)
