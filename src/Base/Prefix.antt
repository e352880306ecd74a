-- ===== src/Base/Prefix.antt =====
-- What the prefix test establishes.
use Prim.Native.Nat.{ℕ, ◌≤◌}
use Prim.Native.Char.{Char, code}
use Prim.Native.String.{String, [], ◌∷◌, ◌++◌}
use mathlib.Core.Path.{◌≡◌, refl, sym, ap₂, ◌∙◌}
use mathlib.Core.Logic.{◌⊎◌, inl, inr}
use mathlib.Core.Bool.{true, false}
use native.Mathlib.Omega.{arith}
use text.Mathlib.TextEquality.{Char-path}
use text.Mathlib.TextLemmas.{nil-append, cons-append}
use swayrider_api.Base.Tests.{eqb, eqb_iff, and-eq-true}
use swayrider_api.Base.Text.{has_prefix, drop_text, len, contains_char, ends_with}

pub has_prefix-append : (p t : String) → has_prefix (p ++ t) p ≡ true
unfolding has_prefix
has_prefix-append [] t = refl
has_prefix-append (c ∷ p) t = rw cons-append (ground (arith, has_prefix-append p t))

pub eq-append_of_has_prefix : (s p : String) → has_prefix s p ≡ true → s ≡ p ++ drop_text s p
unfolding has_prefix drop_text
eq-append_of_has_prefix s [] h = sym (nil-append s)
eq-append_of_has_prefix [] (c ∷ p) h = cc
eq-append_of_has_prefix (d ∷ s) (c ∷ p) h =
    let (same, rest) = and-eq-true _ _ h in
    rw cons-append (
      ap₂ (λ (x : Char) (y : String). x ∷ y) (Char-path d c ((eqb_iff _ _).0 same))
        (eq-append_of_has_prefix s p rest))

pub has_prefix_refl : (s : String) → has_prefix s s ≡ true
unfolding has_prefix
has_prefix_refl [] = refl
has_prefix_refl (c ∷ s) = ground (arith, has_prefix_refl s)

pub has_prefix_trans :
    (s p q : String) → has_prefix s p ≡ true → has_prefix p q ≡ true → has_prefix s q ≡ true
unfolding has_prefix
has_prefix_trans s p [] h k = refl
has_prefix_trans s [] (c ∷ q) h k = cc
has_prefix_trans [] (d ∷ p) (c ∷ q) h k = cc
has_prefix_trans (e ∷ s) (d ∷ p) (c ∷ q) h k = ground (arith, has_prefix_trans s p q)

-- A prefix is not longer than the text.
pub len_of_has_prefix : (s p : String) → has_prefix s p ≡ true → len p ≤ len s
unfolding has_prefix len
len_of_has_prefix s [] h = omega arith
len_of_has_prefix [] (c ∷ p) h = cc
len_of_has_prefix (d ∷ s) (c ∷ p) h =
    let (hd, hp) = and-eq-true (eqb (code d) (code c)) (has_prefix s p) h in
    let same : code d ≡ code c = (eqb_iff (code d) (code c)).0 hd in
    let rest = len_of_has_prefix s p hp in rw same (omega (arith, rest))

-- Two prefixes of one text with the same length in bytes are the same text.
pub eq_of_has_prefix :
    (s p q : String) → has_prefix s p ≡ true → has_prefix s q ≡ true → len p ≡ len q → p ≡ q
unfolding has_prefix len
eq_of_has_prefix s [] [] h k e = refl
eq_of_has_prefix s [] (c ∷ q) h k e = absurd (ground arith)
eq_of_has_prefix s (c ∷ p) [] h k e = absurd (ground arith)
eq_of_has_prefix [] (c ∷ p) (d ∷ q) h k e = cc
eq_of_has_prefix (b ∷ s) (c ∷ p) (d ∷ q) h k e =
    let (hc, hp) = and-eq-true (eqb (code b) (code c)) (has_prefix s p) h in
    let (kd, kq) = and-eq-true (eqb (code b) (code d)) (has_prefix s q) k in
    let same : code c ≡ code d =
      sym ((eqb_iff (code b) (code c)).0 hc) ∙ (eqb_iff (code b) (code d)).0 kd in
    ap₂ (λ (x : Char) (y : String). x ∷ y) (Char-path c d same)
      (eq_of_has_prefix s p q hp kq (ground (arith, same)))

-- Two prefixes of one text are comparable.
pub has_prefix_total :
    (s p q : String)
    → has_prefix s p ≡ true
    → has_prefix s q ≡ true
    → (has_prefix p q ≡ true) ⊎ (has_prefix q p ≡ true)
unfolding has_prefix
has_prefix_total s p [] h k = inl refl
has_prefix_total s [] (c ∷ q) h k = inr refl
has_prefix_total [] (c ∷ p) (d ∷ q) h k = cc
has_prefix_total (b ∷ s) (c ∷ p) (d ∷ q) h k = ground (arith, has_prefix_total s p q)

pub has_prefix-append_append : (a s p : String) → has_prefix (a ++ s) (a ++ p) ≡ has_prefix s p
unfolding has_prefix
has_prefix-append_append [] s p = simp nil-append
has_prefix-append_append (c ∷ a) s p =
    simp cons-append (ground (arith, has_prefix-append_append a s p))

-- A prefix that ends at a slash, of a text whose first slash is the one shown, reaches it.
pub has_prefix_slash :
    (w : String) (b : Char) (u t : String)
    → code b ≡ b'/'
    → contains_char w b'/' ≡ false
    → has_prefix (w ++ (b ∷ u)) t ≡ true
    → ends_with t b'/' ≡ true
    → has_prefix t (w ++ (b ∷ [])) ≡ true
unfolding has_prefix contains_char ends_with
has_prefix_slash w b u [] z n h e = cc
has_prefix_slash [] b u (c ∷ t) z n h e =
    let h' : has_prefix (b ∷ u) (c ∷ t) ≡ true = rw nil-append at h in
    rw nil-append (ground (arith, z, h'))
has_prefix_slash (d ∷ w) b u (c ∷ []) z n h e =
    let h' : has_prefix (d ∷ (w ++ (b ∷ u))) (c ∷ []) ≡ true = rw cons-append at h in
    absurd (ground (arith, h'))
has_prefix_slash (d ∷ w) b u (c ∷ a ∷ t) z n h e =
    let h' : has_prefix (d ∷ (w ++ (b ∷ u))) (c ∷ a ∷ t) ≡ true = rw cons-append at h in
    rw cons-append (ground (arith, h', has_prefix_slash w b u (a ∷ t) z))

pub ends_with-append :
    (a : String) (c : Char) (t : String) (b : ℕ) → ends_with (a ++ (c ∷ t)) b ≡ ends_with (c ∷ t) b
unfolding ends_with
ends_with-append [] c t b = rw nil-append
ends_with-append (d ∷ []) c t b = rw (cons-append, nil-append) refl
ends_with-append (d ∷ e ∷ a) c t b =
    let ih = ends_with-append (e ∷ a) c t b in
    rw (cons-append d, cons-append e) (rw cons-append at ih)
