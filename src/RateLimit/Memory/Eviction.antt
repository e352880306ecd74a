-- ===== src/RateLimit/Memory/Eviction.antt =====
-- The keyspace cap of the fallback, and the choice of the evicted key.
use swayrider_api.Base.{
  ℕ, ◌≤◌, ◌<◌, String, ◌≡◌, refl, sym, ap, ◌∙◌, ◌≢◌, ◌⊎◌, inl, inr, ◌↔◌, none, some, [], ◌∷◌, arith,
  eq_iff, ltb, leb, length, ℤ, In, subst, Bool-cases, Option-cases,
}
use swayrider_api.RateLimit.Memory.Sliding.{length-put-put}
use swayrider_api.RateLimit.Memory.{
  Window, Keys, Memory, find, put, delete, oldest_from, evict_oldest, make_room, open_window, allow,
}

-- The entries of the map, in whatever order, are what the loop visits.
pub record Visits (visit : Keys → Keys) : Type 0 where
  pub same : (l : Keys) (e : String × Window) → In e l ↔ In e (visit l)

abbrev NonEmpty : Keys → Type 0
NonEmpty [] = Unit
NonEmpty ((k, w) ∷ l) = (k ≢ "") × NonEmpty l

touch_eq : {e f : String × Window} → ◌≡◌ {A = String × Window} e f → e.1.last_touch ≡ f.1.last_touch
touch_eq h = ap (λ (e : String × Window). e.1.last_touch) h

-- The loop's result is an entry it visited, with the smallest last touch.
oldest_from-some :
    (v : String) (t : ℕ) (l : Keys)
    → (k : String) × (u : ℕ) × (oldest_from (some (v, t)) l ≡ some (k, u))
      × (((k ≡ v) × (u ≡ t)) ⊎ ((w : Window) × In (k, w) l × (w.last_touch ≡ u)))
      × (u ≤ t)
      × ((j : String) (w : Window) → In (j, w) l → u ≤ w.last_touch)
unfolding oldest_from
oldest_from-some v t [] = (v, t, refl, inl (refl, refl), omega arith, λ j w m. absurd m)
oldest_from-some v t ((j, w) ∷ l) = elim (Bool-cases (ltb w.last_touch t)) [
  | inl older ↦
      let (k, u, e, from, le, all) = oldest_from-some j w.last_touch l in
      (
        k,
        u,
        rw (older, oldest_from) e,
        elim from [
          | inl (a, b) ↦ inr (w, inl (λ i. (a i, w)), sym b)
          | inr (w', m, b) ↦ inr (w', inr m, b)
        ],
        ground (arith, older, le),
        λ i x m. elim m [ inl here ↦ omega (arith, le, touch_eq here) | inr there ↦ all i x there ],
      )
  | inr newer ↦
      let (k, u, e, from, le, all) = oldest_from-some v t l in
      (
        k,
        u,
        rw (newer, oldest_from) e,
        elim from [ inl same ↦ inl same | inr (w', m, b) ↦ inr (w', inr m, b) ],
        le,
        λ i x m. elim m [
          | inl here ↦ ground (arith, newer, le, touch_eq here)
          | inr there ↦ all i x there
        ],
      )
]

oldest_from-none :
    (v : String) (x : Window) (l : Keys)
    → (k : String) × (w : Window) × In (k, w) ((v, x) ∷ l)
      × (oldest_from none ((v, x) ∷ l) ≡ some (k, w.last_touch))
      × ((j : String) (u : Window) → In (j, u) ((v, x) ∷ l) → w.last_touch ≤ u.last_touch)
unfolding oldest_from
oldest_from-none v x l =
    let (k, t, found, from, le, all) = oldest_from-some v x.last_touch l in
    elim from [
      | inl (a, b) ↦ (
        k,
        x,
        inl (λ i. (a i, x)),
        found ∙ ap (λ (n : ℕ). some (k, n)) b,
        λ j u m. elim m [
          | inl here ↦ omega (arith, touch_eq here)
          | inr there ↦ omega (arith, all j u there, b)
        ],
      )
      | inr (w, m, b) ↦ (
        k,
        w,
        inr m,
        found ∙ ap (λ (n : ℕ). some (k, n)) (sym b),
        λ j u n. elim n [
          | inl here ↦ omega (arith, touch_eq here, le, b)
          | inr there ↦ omega (arith, all j u there, b)
        ],
      )
    ]

length-delete-le : (k : String) (l : Keys) → length (delete k l) ≤ length l
unfolding delete
length-delete-le k [] = omega arith
length-delete-le k ((j, w) ∷ l) = ground (arith, length-delete-le k l)

length-delete-lt :
    (k : String) (w : Window) (l : Keys) → In (k, w) l → length (delete k l) < length l
unfolding delete
length-delete-lt k w [] m = absurd m
length-delete-lt k w ((j, u) ∷ l) (inl e) =
    let same : k ≡ j = ap (λ (p : String × Window). p.0) e in
    ground (arith, (eq_iff j k).1 (sym same), length-delete-le k l)
length-delete-lt k w ((j, u) ∷ l) (inr m) =
    ground (arith, length-delete-lt k w l m, length-delete-le k l)

NonEmpty-delete : (k : String) (l : Keys) → NonEmpty l → NonEmpty (delete k l)
unfolding delete
NonEmpty-delete k [] h = tt
NonEmpty-delete k ((j, w) ∷ l) h = ground (arith, NonEmpty-delete k l h.1, h.0)

NonEmpty-put : (k : String) (w : Window) (l : Keys) → k ≢ "" → NonEmpty l → NonEmpty (put k w l)
unfolding put
NonEmpty-put k w [] ne h = (ne, tt)
NonEmpty-put k w ((j, u) ∷ l) ne h = ground (arith, NonEmpty-put k w l ne h.1, h.0)

NonEmpty-In : (l : Keys) (k : String) (w : Window) → NonEmpty l → In (k, w) l → k ≢ ""
NonEmpty-In [] k w h m z = absurd m
NonEmpty-In ((j, u) ∷ l) k w h (inl e) z = h.0 (sym (ap (λ (p : String × Window). p.0) e) ∙ z)
NonEmpty-In ((j, u) ∷ l) k w h (inr m) z = NonEmpty-In l k w h.1 m z

length-put-some :
    (k : String) (w u : Window) (l : Keys) → find k l ≡ some u → length (put k w l) ≡ length l
unfolding find put
length-put-some k w u [] e = cc
length-put-some k w u ((j, v) ∷ l) e = ground (arith, length-put-some k w u l)

-- The invariant: a positive cap, no more keys than it, and no empty key.
pub record IsCapped (m : Memory) : Type 0 where
  pub positive : 1 ≤ m.max_keys
  pub bounded : length m.keys ≤ m.max_keys
  pub named : NonEmpty m.keys

module _ (visit : Keys → Keys) (vs : Visits visit) where
  -- The key that goes is one whose last touch is the earliest.
  pub evict_oldest_lem :
      (e : String × Window) (l : Keys)
      → NonEmpty (e ∷ l)
      → (k : String) × (w : Window) × In (k, w) (e ∷ l)
        × (evict_oldest visit (e ∷ l) ≡ delete k (e ∷ l))
        × ((j : String) (u : Window) → In (j, u) (e ∷ l) → w.last_touch ≤ u.last_touch)
  unfolding evict_oldest
  evict_oldest_lem e l ne = go (visit (e ∷ l)) refl ((vs.same (e ∷ l) e).0 (inl refl))
    where
      go :
          (seen : Keys)
          → visit (e ∷ l) ≡ seen
          → In e seen
          → (k : String) × (w : Window) × In (k, w) (e ∷ l)
            × (evict_oldest visit (e ∷ l) ≡ delete k (e ∷ l))
            × ((j : String) (u : Window) → In (j, u) (e ∷ l) → w.last_touch ≤ u.last_touch)
      go [] q m = absurd m
      go ((v, x) ∷ seen) q m =
          let (k, w, i, found, all) = oldest_from-none v x seen in
          let listed : In (k, w) (e ∷ l) =
            (vs.same (e ∷ l) (k, w)).1 (subst (In (k, w)) (sym q) i) in
          let named = NonEmpty-In (e ∷ l) k w ne listed in
          (
            k,
            w,
            listed,
            rw (q, found, evict_oldest) (ground (arith, named, eq_iff k "")),
            λ j u n. all j u (subst (In (j, u)) q ((vs.same (e ∷ l) (j, u)).0 n)),
          )

  evict-shrinks :
      (l : Keys)
      → 1 ≤ length l
      → NonEmpty l
      → (length (evict_oldest visit l) < length l) × NonEmpty (evict_oldest visit l)
  evict-shrinks [] h ne = absurd (omega arith)
  evict-shrinks (e ∷ l) h ne =
      let (k, w, i, gone, all) = evict_oldest_lem e l ne in
      rw gone (length-delete-lt k w (e ∷ l) i, NonEmpty-delete k (e ∷ l) ne)

  -- The map with room for one more key.
  length-make_room :
      (m : Memory)
      → 1 ≤ m.max_keys
      → length m.keys ≤ m.max_keys
      → NonEmpty m.keys
      → (length (make_room visit m) < m.max_keys) × NonEmpty (make_room visit m)
  unfolding make_room
  length-make_room m pos fits named = elim (Bool-cases (leb m.max_keys (length m.keys))) [
    | inl full ↦
        let (a, b) = evict-shrinks m.keys (ground (arith, full)) named in
        rw (full, make_room) (omega (arith, a), b)
    | inr free ↦ rw (free, make_room) (ground (arith, free), named)
  ]

  allow-bounded :
      (m : Memory) (k : String) (limit : ℤ) (window t : ℕ)
      → k ≢ ""
      → IsCapped m
      → (length (allow visit m k limit window t).1.keys ≤ m.max_keys)
        × NonEmpty (allow visit m k limit window t).1.keys
  unfolding allow open_window
  allow-bounded m k limit window t ne c = elim (Option-cases (find k m.keys)) [
    | inl e ↦
        let (a, b) = length-make_room m c.positive c.bounded c.named in
        rw (e, open_window)
          (
            omega (arith, length-put-put k _ _ (make_room visit m), a),
            NonEmpty-put k _ _ ne (NonEmpty-put k _ _ ne b),
          )
    | inr (w, e) ↦
        rw (e, open_window)
          (omega (arith, length-put-some k _ w m.keys e, c.bounded), NonEmpty-put k _ _ ne c.named)
  ]

-- However the map is iterated, a request with a key that is not empty keeps the cap: the number of
-- keys never exceeds `max_keys`, and no key is empty.
pub allow-IsCapped :
    (visit : Keys → Keys) (vs : Visits visit) (m : Memory) (k : String) (limit : ℤ) (window t : ℕ)
    → k ≢ ""
    → IsCapped m
    → IsCapped (allow visit m k limit window t).1
allow-IsCapped visit vs m k limit window t ne c =
    let (a, b) = allow-bounded visit vs m k limit window t ne c in
    unfold allow in record { positive = c.positive; bounded = a; named = b }
