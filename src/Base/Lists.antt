-- ===== src/Base/Lists.antt =====
-- Lists measured by native numbers, the loops of Go as Boolean searches, and predicates on all items.
use Prim.Native.Nat.{ℕ, suc, ◌+◌}
use mathlib.Core.Path.{◌≡◌, refl, sym, subst}
use mathlib.Core.Logic.{◌⊎◌, inl, inr}
use mathlib.Core.Bool.{Bool, true, false, ◌&&◌, ◌||◌}
use mathlib.Core.List.{List, [], ◌∷◌, ◌++◌}
use native.Mathlib.Omega.{arith}
use swayrider_api.Base.Tests.{if◌then◌else◌}

module _ {ℓ} {A : Type ℓ} where
  abbrev pub length : List A → ℕ
  length [] = 0
  length (x ∷ xs) = suc (length xs)

  pub length-append : (xs ys : List A) → length (xs ++ ys) ≡ length xs + length ys
  length-append [] ys = omega arith
  length-append (x ∷ xs) ys = omega (arith, length-append xs ys)

  abbrev pub any : (A → Bool) → List A → Bool
  any p [] = false
  any p (x ∷ xs) = p x || any p xs

  abbrev pub all : (A → Bool) → List A → Bool
  all p [] = true
  all p (x ∷ xs) = p x && all p xs

  -- `for … { if p(x) { out = append(out, x) } }`
  abbrev pub keep_if : (A → Bool) → List A → List A
  keep_if p [] = []
  keep_if p (x ∷ xs) = if p x then x ∷ keep_if p xs else keep_if p xs

module _ {ℓ κ} {A : Type ℓ} (P : A → Type κ) where
  abbrev pub All : List A → Type κ
  All [] = Unit
  All (x ∷ xs) = P x × All xs

-- One of the items, with its place.
abbrev pub Any {ℓ} : {A : Type ℓ} → (A → Type 0) → List A → Type 0
Any P [] = ⊥
Any P (x ∷ xs) = P x ⊎ Any P xs

-- Membership as a value that can be taken apart.
abbrev pub In : {A : Type 0} → A → List A → Type 0
In x = Any (λ y. x ≡ y)

module _ {A : Type 0} (P : A → Type 0) where
  pub All-In : (xs : List A) (x : A) → All P xs → In x xs → P x
  All-In [] x h m = absurd m
  All-In (y ∷ xs) x h (inl e) = subst P (sym e) h.0
  All-In (y ∷ xs) x h (inr m) = All-In xs x h.1 m

  pub All-intro : (xs : List A) → ((x : A) → In x xs → P x) → All P xs
  All-intro [] h = tt
  All-intro (y ∷ xs) h = (h y (inl refl), All-intro xs (λ x m. h x (inr m)))

module _ {A : Type 0} where
  pub In-append_right : (xs ys : List A) (x : A) → In x ys → In x (xs ++ ys)
  In-append_right [] ys x m = m
  In-append_right (y ∷ xs) ys x m = inr (In-append_right xs ys x m)

  pub In-append_left : (xs ys : List A) (x : A) → In x xs → In x (xs ++ ys)
  In-append_left [] ys x m = absurd m
  In-append_left (y ∷ xs) ys x (inl e) = inl e
  In-append_left (y ∷ xs) ys x (inr m) = inr (In-append_left xs ys x m)

  pub In-split : (xs ys : List A) (x : A) → In x (xs ++ ys) → In x xs ⊎ In x ys
  In-split [] ys x m = inr m
  In-split (y ∷ xs) ys x (inl e) = inl (inl e)
  In-split (y ∷ xs) ys x (inr m) = elim (In-split xs ys x m) [ inl a ↦ inl (inr a) | inr b ↦ inr b ]
