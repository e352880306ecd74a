-- ===== src/Server/Mux/Narrowest.antt =====
-- The most specific pattern that takes a request is the longest one, where all have its method.
use swayrider_api.Base.{
  String, ◌≡◌, refl, sym, ap, ◌∙◌, subst, ◌⊎◌, ◌≤◌, inl, inr, true, false, some, [], ◌∷◌, ◌==◌,
  arith, Bool-cases, In, len, eq_iff, eq_refl, and-eq-true, has_prefix, ends_with,
}
use swayrider_api.Base.Prefix.{len_of_has_prefix, has_prefix_total}
use swayrider_api.Http.{Request}
use swayrider_api.Extension.Routing.{matches_path}
use swayrider_api.Extension.Reserved.{has_prefix_of_matches}
use swayrider_api.Server.Mux.{
  Pattern, Mux, takes_method, takes, is_wider, narrower, dispatch_from, dispatch,
}

-- Of two paths that take a third, the one that does not take the other is not the shorter one.
matches_path-false :
    (q p s : String)
    → matches_path q s ≡ true
    → matches_path p s ≡ true
    → matches_path q p ≡ false
    → len p ≤ len q
unfolding matches_path
matches_path-false q p s a b e = elim (Bool-cases (ends_with q b'/')) [
  | inl slash ↦
      let above : has_prefix s q ≡ true = rw (matches_path, slash) at a in
      let apart : has_prefix p q ≡ false = rw (matches_path, slash) at e in
      elim (has_prefix_total s p q (has_prefix_of_matches p s b) above) [
        | inl h ↦ cc (h, apart)
        | inr h ↦ len_of_has_prefix q p h
      ]
  | inr exact ↦
      let same : (s == q) ≡ true = rw (matches_path, exact) at a in
      len_of_has_prefix q p
        (subst (λ x. has_prefix x p ≡ true) ((eq_iff s q).0 same) (has_prefix_of_matches p s b))
]

pub takes_method_refl : (m : String) → takes_method m m ≡ true
unfolding takes_method
takes_method_refl m = let same = eq_refl m in ground (arith, same)

module _ {S : Type 0} (r : Request) where
  narrower_lem :
      (q p : Pattern S)
      → takes q r ≡ true
      → takes p r ≡ true
      → q.method ≡ p.method
      → (x : Pattern S) × (narrower (some q) p ≡ some x)
        × ((x ≡ q) ⊎ (x ≡ p))
        × (len q.path ≤ len x.path)
        × (len p.path ≤ len x.path)
  unfolding takes is_wider narrower
  narrower_lem q p a b m =
      let path_q : matches_path q.path r.path ≡ true = (and-eq-true _ _ a).1 in
      let path_p : matches_path p.path r.path ≡ true = (and-eq-true _ _ b).1 in
      let methods : takes_method q.method p.method ≡ true = rw (m) (takes_method_refl p.method) in
      elim (Bool-cases (matches_path q.path p.path)) [
        | inl wide ↦ (
          p,
          rw (methods, wide) refl,
          inr refl,
          len_of_has_prefix p.path q.path (has_prefix_of_matches q.path p.path wide),
          omega arith,
        )
        | inr apart ↦ (
          q,
          rw (methods, apart) refl,
          inl refl,
          omega arith,
          matches_path-false q.path p.path r.path path_q path_p apart,
        )
      ]

  -- What the mux has found: a pattern that takes the request, at least as long as `best` and as all
  -- that remain and take it.
  dispatch_from-some :
      (best : Pattern S) (ps : Mux S)
      → takes best r ≡ true
      → best.method ≡ r.method
      → ((p : Pattern S) → In p ps → takes p r ≡ true → p.method ≡ r.method)
      → (x : Pattern S) × (dispatch_from (some best) ps r ≡ some x)
        × ((x ≡ best) ⊎ (In x ps × (takes x r ≡ true)))
        × (len best.path ≤ len x.path)
        × ((y : Pattern S) → In y ps → takes y r ≡ true → len y.path ≤ len x.path)
  unfolding dispatch_from
  dispatch_from-some best [] a m same = (best, refl, inl refl, omega arith, λ y i. absurd i)
  dispatch_from-some best (p ∷ ps) a m same = elim (Bool-cases (takes p r)) [
    | inr off ↦
        let (x, e, from, le, all) = dispatch_from-some best ps a m (λ y i. same y (inr i)) in
        (
          x,
          rw (off, dispatch_from) e,
          elim from [ inl y ↦ inl y | inr i ↦ inr (inr i.0, i.1) ],
          le,
          λ y i s. elim i [
            | inl here ↦ absurd (cc (ap (λ (z : Pattern S). takes z r) here, s, off))
            | inr there ↦ all y there s
          ],
        )
    | inl on ↦
        let (b, step, which, le_best, le_p) =
          narrower_lem best p a on (m ∙ sym (same p (inl refl) on)) in
        let b_on : takes b r ≡ true = elim which [ inl k ↦ rw (k) a | inr k ↦ rw (k) on ] in
        let b_method : b.method ≡ r.method = elim which [
          | inl k ↦ rw (k) m
          | inr k ↦ rw (k) (same p (inl refl) on)
        ] in
        let (x, e, from, le, all) = dispatch_from-some b ps b_on b_method (λ y i. same y (inr i)) in
        (
          x,
          rw (on, dispatch_from) (rw (step, dispatch_from) e),
          elim which [
            | inl old ↦ elim from [ inl y ↦ inl (y ∙ old) | inr i ↦ inr (inr i.0, i.1) ]
            | inr new ↦ elim from [
              | inl y ↦ inr (inl (y ∙ new), rw (y ∙ new) on)
              | inr i ↦ inr (inr i.0, i.1)
            ]
          ],
          omega (arith, le, le_best),
          λ y i s. elim i [
            | inl here ↦ omega (arith, le, le_p, ap (λ (z : Pattern S). len z.path) here)
            | inr there ↦ all y there s
          ],
        )
  ]

  -- A pattern that the mux finds, where one is there.
  pub dispatch-longest :
      (ps : Mux S) (q : Pattern S)
      → In q ps
      → takes q r ≡ true
      → ((p : Pattern S) → In p ps → takes p r ≡ true → p.method ≡ r.method)
      → (x : Pattern S) × (dispatch ps r ≡ some x)
        × In x ps
        × (takes x r ≡ true)
        × (len q.path ≤ len x.path)
  unfolding dispatch dispatch_from narrower
  dispatch-longest [] q i a same = absurd i
  dispatch-longest (p ∷ ps) q i a same = elim (Bool-cases (takes p r)) [
    | inr off ↦ elim i [
      | inl here ↦ absurd (cc (ap (λ (z : Pattern S). takes z r) here, a, off))
      | inr there ↦
          let (x, e, listed, on, le) = dispatch-longest ps q there a (λ y k. same y (inr k)) in
          (x, rw (off, dispatch_from) e, inr listed, on, le)
    ]
    | inl on ↦
        let (x, e, from, le, all) =
          dispatch_from-some p ps on (same p (inl refl) on) (λ y k. same y (inr k)) in
        (
          x,
          rw (on, dispatch_from) e,
          elim from [ inl k ↦ inl k | inr k ↦ inr k.0 ],
          elim from [ inl k ↦ rw (k) on | inr k ↦ k.1 ],
          elim i [
            | inl here ↦ omega (arith, le, ap (λ (z : Pattern S). len z.path) here)
            | inr there ↦ all q there a
          ],
        )
  ]
